-- ===== src/Format/Names.antt =====
-- Names without the suffix "Dummy".
use etl_nexus.Common.{true, [], ◌∷◌, ◌++◌, ◌≡◌, refl, arith, Text, length, length-append}
use etl_nexus.Format.{is_dummy, strip_dummy}

is_dummy-length : (s : Text) → is_dummy s ≡ true → length s ≡ 5
unfolding is_dummy
is_dummy-length s h = ground arith

strip_dummy-is_dummy : (s : Text) → is_dummy s ≡ true → strip_dummy s ≡ []
unfolding strip_dummy
strip_dummy-is_dummy [] h = refl
strip_dummy-is_dummy (c ∷ s) h = ground arith

-- A name keeps everything in front of one final "Dummy", in capitals or not.
pub strip_dummy-append :
    (name suffix : Text) → is_dummy suffix ≡ true → strip_dummy (name ++ suffix) ≡ name
unfolding strip_dummy
strip_dummy-append [] suffix h = strip_dummy-is_dummy suffix h
strip_dummy-append (c ∷ name) suffix h = ground (
  arith,
  strip_dummy-append name suffix h,
  is_dummy-length (c ∷ name ++ suffix),
  is_dummy-length suffix h,
  length-append name suffix,
)
