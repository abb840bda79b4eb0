-- ===== src/Diagrams/Downloads.antt =====
-- frontend/src/lib/export-visual.ts: the three exports of a diagram, from the answers of html-to-image
-- (`none` where it throws). What is written to the log is its first text.
use etl_nexus.Common.{[], ◌∷◌, ◌++◌, Option, none, some, Text, String, codes}
use etl_nexus.Export.{join}
use etl_nexus.Diagrams.{Blob, data_url_to_blob, escape_html, page_title, file_name}

-- what ends an export: a download under a name, or an error in the log
pub data ExportResult : Type 0 where
  image : Blob → (filename : Text) → ExportResult
  page : (html : Text) → (filename : Text) → ExportResult
  logged : String → ExportResult

-- the name of the exported file, and the blob, unless decoding throws
abbrev save_image : String → Text → Option Blob → ExportResult
save_image message filename none = logged message
save_image message filename (some blob) = image blob filename

unfoldable pub download_as_svg : (Text → Option Text) → Option Text → Text → ExportResult
unfolding data_url_to_blob
download_as_svg atob none filename = logged "SVG export failed:"
download_as_svg atob (some url) filename =
    save_image "SVG export failed:" (filename ++ codes ".svg") (data_url_to_blob atob url)

unfoldable pub download_as_png : (Text → Option Text) → Option Text → Text → ExportResult
unfolding data_url_to_blob
download_as_png atob none filename = logged "PNG export failed:"
download_as_png atob (some url) filename =
    save_image "PNG export failed:" (filename ++ codes ".png") (data_url_to_blob atob url)

abbrev page_head : Text
page_head =
    join b'\n' (codes "<!DOCTYPE html>" ∷ codes "<html><head><meta charset=\"utf-8\"><title>" ∷ [])

abbrev page_style : Text
page_style = join b'\n' (
    codes "</title>"
    ∷ codes "<style>"
    ∷ codes "  body { margin: 0; background: #09090b; overflow: hidden; font-family: system-ui; }"
    ∷ codes
        "  #container { width: 100vw; height: 100vh; cursor: grab; display: flex; align-items: center; justify-content: center; }"
    ∷ codes "  #container:active { cursor: grabbing; }"
    ∷ codes "  #container img { transform-origin: 0 0; max-width: none; }"
    ∷ codes
        "  .toolbar { position: fixed; top: 16px; right: 16px; display: flex; gap: 8px; z-index: 10; }"
    ∷ codes
        "  .toolbar button { padding: 8px 12px; background: #18181b; color: #fff; border: 1px solid rgba(255,255,255,0.1); border-radius: 8px; cursor: pointer; font-size: 13px; }"
    ∷ codes "  .toolbar button:hover { background: #27272a; }"
    ∷ codes
        "  h1 { position: fixed; top: 16px; left: 16px; color: #e2e8f0; font-size: 14px; margin: 0; z-index: 10; }"
    ∷ codes "</style></head><body>"
    ∷ codes "<h1>"
    ∷ [])

abbrev page_buttons : Text
page_buttons = join b'\n' (
    codes "</h1>"
    ∷ codes "<div class=\"toolbar\">"
    ∷ codes "  <button onclick=\"zoom(1.2)\">+</button>"
    ∷ codes "  <button onclick=\"zoom(0.8)\">−</button>"
    ∷ codes "  <button onclick=\"resetView()\">Reset</button>"
    ∷ codes "</div>"
    ∷ codes "<div id=\"container\"><img src=\""
    ∷ [])

abbrev page_script : Text
page_script = join b'\n' (
    codes "\" /></div>"
    ∷ codes "<script>"
    ∷ codes
        "let scale=1,tx=0,ty=0;const c=document.getElementById('container'),img=c.querySelector('img');"
    ∷ codes "function apply(){img.style.transform='translate('+tx+'px,'+ty+'px) scale('+scale+')';}"
    ∷ codes "function zoom(f){scale*=f;apply();}function resetView(){scale=1;tx=0;ty=0;apply();}"
    ∷ codes "let drag=false,sx,sy;c.onmousedown=e=>{drag=true;sx=e.clientX-tx;sy=e.clientY-ty;};"
    ∷ codes "c.onmousemove=e=>{if(drag){tx=e.clientX-sx;ty=e.clientY-sy;apply();}};"
    ∷ codes "c.onmouseup=()=>drag=false;c.onmouseleave=()=>drag=false;"
    ∷ codes "c.onwheel=e=>{e.preventDefault();zoom(e.deltaY<0?1.1:0.9);};"
    ∷ codes "</script></body></html>"
    ∷ [])

unfoldable pub interactive_page : Text → Text → Text
unfolding escape_html page_title join
interactive_page title svg_url =
    page_head
    ++ page_title title
    ++ page_style
    ++ escape_html title
    ++ page_buttons
    ++ svg_url
    ++ page_script

unfoldable pub download_as_interactive_html : Option Text → Text → ExportResult
unfolding interactive_page file_name
download_as_interactive_html none title = logged "Interactive HTML export failed:"
download_as_interactive_html (some url) title = page (interactive_page title url) (file_name title)
