-- ===== src/ImageLinks/Examples.antt =====
-- Links and sizes at concrete inputs.
use imagesilo.Common.{◌≡◌, refl, [], ◌∷◌}
use imagesilo.Common.Text.{codes, decimal}
use imagesilo.ImageLinks.{LinkFormat, image_links_text, format_bytes, escape_html, escape_alt}
use imagesilo.Common.Collections.{has}
use imagesilo.ImageLinks.Escaping.{escape_html_safe}
use imagesilo.Common.{false, nat_eq}

escape_html_safe_example :
    (has 34 (escape_html (codes "\"><script>")) ≡ false)
    × (has 60 (escape_html (codes "\"><script>")) ≡ false)
    × (has 62 (escape_html (codes "\"><script>")) ≡ false)
escape_html_safe_example = escape_html_safe (codes "\"><script>")

format_bytes_runs :
    (format_bytes 1023 ≡ codes "1023 B")
    × (format_bytes 1536 ≡ codes "1.5 KiB")
    × (format_bytes 1048575 ≡ codes "1024.0 KiB")
    × (format_bytes 3221225472 ≡ codes "3.00 GiB")
unfolding format_bytes decimal
format_bytes_runs = (refl, refl, refl, refl)

links_run :
    image_links_text
      (λ u. u)
      (record { original_name = codes "a]"; standard_url = codes "/x" } ∷ [])
      LinkFormat.markdown
    ≡ codes "![a\\]](/x)"
unfolding image_links_text escape_alt escape_html
links_run = refl
