-- ===== src/ImageLinks/Escaping.antt =====
-- Escaping: the four replacements act as one table, the result is safe inside an attribute, and the
-- alternative text of a Markdown link can be read back.
use imagesilo.Common.{
  ℕ, ◌≡◌, refl, ap, ◌∙◌, true, false, [], ◌∷◌, ◌++◌, flat_map, arith, ◌==◌, nat_eq, inl, inr,
  Bool-cases, if◌then◌else◌,
}
use mathlib.Core.List.{append_assoc}
use imagesilo.Common.Text.{Text, codes}
use imagesilo.Common.Collections.{has, has-append}
use imagesilo.ImageLinks.{replace_all, escape_html, escape_alt, is_bracket}

replace_all-append :
    (c : ℕ) (by s t : Text) → replace_all c by (s ++ t) ≡ replace_all c by s ++ replace_all c by t
unfolding replace_all
replace_all-append c by [] t = refl
replace_all-append c by (d ∷ s) t = simp (replace_all-append c by s t, append_assoc)

escape_html-append : (s t : Text) → escape_html (s ++ t) ≡ escape_html s ++ escape_html t
unfolding escape_html
escape_html-append s t = simp replace_all-append

-- What one character becomes.
abbrev pub entity : ℕ → Text
entity c =
    if c == 38
    then codes "&amp;"
    else if c == 34
    then codes "&quot;"
    else if c == 60
    then codes "&lt;"
    else if c == 62
    then codes "&gt;"
    else c ∷ []

escape_one : (c : ℕ) → escape_html (c ∷ []) ≡ entity c
unfolding escape_html replace_all
escape_one c = ground arith

-- The four replacements in a row rewrite each character once, by the table of entities: no entity
-- that an earlier one has put in is rewritten by a later one.
pub escape_html_lem : (s : Text) → escape_html s ≡ flat_map entity s
escape_html_lem [] = unfold escape_html replace_all in refl
escape_html_lem (c ∷ s) = escape_html-append (c ∷ []) s ∙ rw (escape_one c, escape_html_lem s) refl

no_delimiter :
    (c : ℕ)
    → (has 34 (entity c) ≡ false) × (has 60 (entity c) ≡ false) × (has 62 (entity c) ≡ false)
unfolding has
no_delimiter c = ground arith

-- An escaped text holds no quotation mark and no angle bracket, so it cannot close the attribute or
-- the tag in which it stands.
pub escape_html_safe :
    (s : Text)
    → (has 34 (escape_html s) ≡ false)
      × (has 60 (escape_html s) ≡ false)
      × (has 62 (escape_html s) ≡ false)
escape_html_safe s = rw (escape_html_lem s) (go s)
  where
    go :
        (t : Text)
        → (has 34 (flat_map entity t) ≡ false)
          × (has 60 (flat_map entity t) ≡ false)
          × (has 62 (flat_map entity t) ≡ false)
    go [] = unfold has in (refl, refl, refl)
    go (c ∷ t) = ground (
      arith,
      go t,
      no_delimiter c,
      has-append 34 (entity c) (flat_map entity t),
      has-append 60 (entity c) (flat_map entity t),
      has-append 62 (entity c) (flat_map entity t),
    )

-- How Markdown reads a text with backslash escapes.
unfoldable pub unescape : Text → Text
unescape [] = []
unescape (c ∷ []) = c ∷ []
unescape (c ∷ d ∷ s) =
    let escaped = d ∷ unescape s in
    let plain = c ∷ unescape (d ∷ s) in if c == 92 then escaped else plain

unescape_plain : (c : ℕ) (t : Text) → (c == 92) ≡ false → unescape (c ∷ t) ≡ c ∷ unescape t
unfolding unescape
unescape_plain c [] h = refl
unescape_plain c (d ∷ t) h = rw h refl

-- The alternative text of a Markdown link reads back as the image's name.
pub unescape-escape_alt : (s : Text) → unescape (escape_alt s) ≡ s
unescape-escape_alt [] = unfold unescape escape_alt in refl
unescape-escape_alt (c ∷ s) = elim (Bool-cases (is_bracket c)) [
  | inl e ↦ bracket e (unescape-escape_alt s)
  | inr e ↦ plain e (unescape-escape_alt s)
]
  where
    bracket :
        is_bracket c ≡ true → unescape (escape_alt s) ≡ s → unescape (escape_alt (c ∷ s)) ≡ c ∷ s
    bracket e ih = unfold escape_alt in rw e (unfold unescape in rw ih refl)

    plain :
        is_bracket c ≡ false → unescape (escape_alt s) ≡ s → unescape (escape_alt (c ∷ s)) ≡ c ∷ s
    plain e ih =
        unfold escape_alt in
        rw e (unescape_plain c (escape_alt s) (ground arith) ∙ ap (λ t. c ∷ t) ih)
