-- ===== src/Diagrams/Decoding.antt =====
-- What becomes of the data URLs that html-to-image answers with.
use etl_nexus.Common.{
  ℕ, true, false, [], ◌∷◌, ◌++◌, map, Option, none, some, Text, codes, split_on, ◌≡◌, refl, arith,
}
use etl_nexus.Export.{has_char}
use etl_nexus.Diagrams.{byte_of, mime_of, data_url_to_blob}
use etl_nexus.Diagrams.Downloads.{image, logged, download_as_svg, download_as_png}

split_on-alone : (sep : ℕ) (text : Text) → has_char sep text ≡ false → split_on sep text ≡ text ∷ []
unfolding split_on
split_on-alone sep [] h = refl
split_on-alone sep (c ∷ text) h = rw (split_on-alone sep text (ground arith)) (ground arith)

split_on-first :
    (sep : ℕ) (first rest : Text)
    → has_char sep first ≡ false
    → has_char sep rest ≡ false
    → split_on sep (first ++ sep ∷ rest) ≡ first ∷ rest ∷ []
unfolding split_on
split_on-first sep [] rest h k = rw (split_on-alone sep rest k) (ground arith)
split_on-first sep (c ∷ first) rest h k =
    rw (split_on-first sep first rest (ground arith) k) (ground arith)

-- the data URLs of html-to-image: an SVG is percent-encoded, a PNG is in base64
abbrev pub svg_url : Text → Text
svg_url body = codes "data:image/svg+xml;charset=utf-8" ++ b',' ∷ body

abbrev pub png_url : Text → Text
png_url body = codes "data:image/png;base64" ++ b',' ∷ body

-- Where `atob` throws at a percent sign, and html-to-image answers for an SVG with a percent-encoded
-- text (which has a percent sign, and no comma) and for a PNG with a text that `atob` decodes: the
-- export of the SVG never saves a file and only logs an error, and the export of the PNG saves the
-- decoded bytes as an image under the name with ".png".
pub exports_decoded :
    (atob : Text → Option Text) (svg png binary filename : Text)
    → ((text : Text) → has_char b'%' text ≡ true → atob text ≡ none)
    → has_char b'%' svg ≡ true
    → has_char b',' svg ≡ false
    → has_char b',' png ≡ false
    → atob png ≡ some binary
    → (download_as_svg atob (some (svg_url svg)) filename ≡ logged "SVG export failed:")
      × (download_as_png atob (some (png_url png)) filename
          ≡ image
              (record { mime = codes "image/png"; bytes = map byte_of binary })
              (filename ++ codes ".png"))
unfolding download_as_svg download_as_png data_url_to_blob mime_of
exports_decoded atob svg png binary filename throws percent svg_plain png_plain decoded = (
  rw
      (
        split_on-first b',' (codes "data:image/svg+xml;charset=utf-8") svg refl svg_plain,
        throws svg percent,
      )
      refl,
  rw (split_on-first b',' (codes "data:image/png;base64") png refl png_plain, decoded) refl,
)
