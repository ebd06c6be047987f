-- ===== src/ImageLinks.antt =====
-- Links to images in four formats, and sizes for display: web/src/lib/image-links.ts.
-- Resolving a URL against the page's origin is the browser's: `resolve` stands for it.
pub mod Escaping
pub mod Sizes
mod Examples
use imagesilo.Common.{
  ℕ, ◌+◌, ◌*◌, ◌/◌, ◌%◌, Bool, ◌||◌, List, [], ◌∷◌, ◌++◌, map, ltb, ◌==◌, nat_eq, if◌then◌else◌,
}
use imagesilo.Common.Text.{Text, codes, decimal}

pub data LinkFormat : Type 0 where
  direct markdown html bbcode : LinkFormat

pub record LinkableImage : Type 0 where
  pub original_name : Text
  pub standard_url : Text

pub record Links : Type 0 where
  pub direct : Text
  pub markdown : Text
  pub html : Text
  pub bbcode : Text

-- `value.replaceAll(c, text)` for a text of one character.
unfoldable pub replace_all : ℕ → Text → Text → Text
replace_all c by [] = []
replace_all c by (d ∷ s) = (if d == c then by else d ∷ []) ++ replace_all c by s

unfoldable pub escape_html : Text → Text
unfolding replace_all
escape_html value = replace_all 62 (codes "&gt;") (
    replace_all 60 (codes "&lt;")
      (replace_all 34 (codes "&quot;") (replace_all 38 (codes "&amp;") value)))

abbrev pub is_bracket : ℕ → Bool
is_bracket c = c == 92 || (c == 91 || c == 93)

-- `originalName.replace(/[\\[\]]/g, '\\$&')`
unfoldable pub escape_alt : Text → Text
escape_alt [] = []
escape_alt (c ∷ s) = (if is_bracket c then 92 ∷ c ∷ [] else c ∷ []) ++ escape_alt s

module _ (resolve : Text → Text) where
  unfoldable pub image_links : LinkableImage → Links
  image_links image =
      let link = resolve image.standard_url in
      record {
        direct = link;
        markdown =
            codes "![" ++ (escape_alt image.original_name ++ (codes "](" ++ (link ++ codes ")")));
        html =
            codes "<img src=\""
            ++ (escape_html link
                ++ (codes "\" alt=\"" ++ (escape_html image.original_name ++ codes "\">")));
        bbcode = codes "[img]" ++ (link ++ codes "[/img]");
      }

  abbrev pub in_format : LinkFormat → Links → Text
  in_format direct l = l.direct
  in_format markdown l = l.markdown
  in_format html l = l.html
  in_format bbcode l = l.bbcode

  -- One link to a line.
  unfoldable pub join_lines : List Text → Text
  join_lines [] = []
  join_lines (line ∷ []) = line
  join_lines (line ∷ next ∷ lines) = line ++ 10 ∷ join_lines (next ∷ lines)

  unfoldable pub image_links_text : List LinkableImage → LinkFormat → Text
  unfolding image_links join_lines
  image_links_text images format =
      join_lines (map (λ image. in_format format (image_links image)) images)

-- `(value / unit).toFixed(1)`, as a number of tenths. The quotient by a power of two is exact for a
-- size below 2 ^ 53, and a tie is rounded up.
unfoldable pub tenths : ℕ → ℕ → ℕ
tenths value unit = (20 * value + unit) / (2 * unit)

unfoldable pub hundredths : ℕ → ℕ → ℕ
hundredths value unit = (200 * value + unit) / (2 * unit)

abbrev pub kib : ℕ
kib = 1024

abbrev pub mib : ℕ
mib = 1048576

abbrev pub gib : ℕ
gib = 1073741824

-- A size for display, before it is printed.
pub data Shown : Type 0 where
  bytes : ℕ → Shown
  kib_tenths : ℕ → Shown
  mib_tenths : ℕ → Shown
  gib_hundredths : ℕ → Shown

unfoldable pub scale : ℕ → Shown
unfolding tenths hundredths
scale value =
    if ltb value kib
    then bytes value
    else if ltb value mib
    then kib_tenths (tenths value kib)
    else if ltb value gib
    then mib_tenths (tenths value mib)
    else gib_hundredths (hundredths value gib)

abbrev pub print_size : Shown → Text
print_size (bytes n) = decimal n ++ codes " B"
print_size (kib_tenths n) = decimal (n / 10) ++ 46 ∷ (decimal (n % 10) ++ codes " KiB")
print_size (mib_tenths n) = decimal (n / 10) ++ 46 ∷ (decimal (n % 10) ++ codes " MiB")
print_size (gib_hundredths n) =
    decimal (n / 100) ++ 46 ∷ (decimal (n / 10 % 10) ++ (decimal (n % 10) ++ codes " GiB"))

unfoldable pub format_bytes : ℕ → Text
unfolding scale
format_bytes value = print_size (scale value)
