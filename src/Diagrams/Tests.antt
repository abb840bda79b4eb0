-- ===== src/Diagrams/Tests.antt =====
-- Titles, file names and data URLs.
use etl_nexus.Common.{
  true, map, ◌++◌, Option, none, some, Text, codes, All, split_on, if◌then◌else◌, ◌≡◌, refl,
}
use etl_nexus.Export.{has_char}
use etl_nexus.Diagrams.{escape_html, page_title, file_name, mime_of, data_url_to_blob, byte_of}
use etl_nexus.Diagrams.Downloads.{image, logged, download_as_svg, download_as_png}
use etl_nexus.Diagrams.Decoding.{svg_url, png_url, exports_decoded}
use etl_nexus.Diagrams.Escaping.{entities, IsInert, read_html, escape_html-read}

escaped : escape_html (codes "<a & b>") ≡ codes "&lt;a &amp; b&gt;"
unfolding escape_html
escaped = refl

titled : page_title (codes "a & b") ≡ codes "a &amp; b - Lineage"
unfolding page_title
titled = refl

named : file_name (codes "Sales / 2024") ≡ codes "Sales___2024_lineage.html"
unfolding file_name
named = refl

svg_mime : mime_of (codes "data:image/svg+xml;charset=utf-8") ≡ some (codes "image/svg+xml")
unfolding mime_of
svg_mime = refl

-- Without a semicolon the type is not found.
no_mime : mime_of (codes "data:image/png") ≡ none
unfolding mime_of
no_mime = refl

png_blob :
    data_url_to_blob (λ base64. some base64) (codes "data:image/png;base64,abc")
    ≡ some (record { mime = codes "image/png"; bytes = codes "abc" })
unfolding data_url_to_blob split_on
png_blob = refl

escape_html-read_example :
    (escape_html (codes "a<b & c") ≡ entities (codes "a<b & c"))
    × (All IsInert (escape_html (codes "a<b & c"))
        × (read_html 0 (escape_html (codes "a<b & c")) ≡ codes "a<b & c"))
escape_html-read_example = escape_html-read (codes "a<b & c")

-- a decoder that throws at a percent sign
abbrev plain_atob : Text → Option Text
plain_atob text = if has_char b'%' text then none else some text

plain_atob_throws : (text : Text) → has_char b'%' text ≡ true → plain_atob text ≡ none
plain_atob_throws text h = rw h refl

exports_decoded_example :
    (download_as_svg plain_atob (some (svg_url (codes "%3Csvg"))) (codes "erd")
      ≡ logged "SVG export failed:")
    × (download_as_png plain_atob (some (png_url (codes "iVBO"))) (codes "erd")
        ≡ image
            (record { mime = codes "image/png"; bytes = map byte_of (codes "iVBO") })
            (codes "erd" ++ codes ".png"))
exports_decoded_example =
    exports_decoded plain_atob (codes "%3Csvg") (codes "iVBO") (codes "iVBO") (codes "erd")
      plain_atob_throws refl refl refl refl
