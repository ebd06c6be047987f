-- ===== src/ImageListPage/Return.antt =====
-- Coming back to the list from an image: the effect runs again after each page of the list that it has
-- asked for. A query whose last request has failed is no success any more, although it keeps its pages.
use imagesilo.Common.{
  ℕ, ◌+◌, ◌≡◌, ◌||◌, Bool, true, false, not, Option, none, some, List, [], ◌∷◌, leb, if◌then◌else◌,
  nat_eq, list_eq, arith, ◌∙◌,
}
use imagesilo.Common.Text.{Text}
use imagesilo.Common.Collections.{lookup, remove}
use imagesilo.ImageListPage.Scroll.{
  Position, Positions, Restore, scroll_to, fetch_next, nothing, Loaded, restore_scroll,
}

abbrev pub listed : Bool → Bool → ℕ → Loaded
listed has_next failed images = record {
  is_success = not failed;
  has_next = has_next;
  is_fetching = false;
  is_error = failed;
  images = images;
}

-- What happens after the effect has run: if it asked for a page, what the page's arrival leads to.
abbrev pub continue_with : Restore × Positions → Restore × Positions → Restore × Positions
continue_with (fetch_next, left) later = later
continue_with (scroll_to top, left) later = (scroll_to top, left)
continue_with (nothing, left) later = (nothing, left)

-- The effect after each of the pages that are still to come, each with its number of images; `none` is
-- a request that fails.
unfoldable pub restore_all : Text → Positions → ℕ → List (Option ℕ) → Restore × Positions
restore_all key positions images [] = restore_scroll key (listed false false images) positions
restore_all key positions images (none ∷ answers) =
    continue_with (restore_scroll key (listed true false images) positions)
      (restore_scroll key (listed true true images) positions)
restore_all key positions images (some n ∷ answers) =
    let more = restore_all key positions (images + n) answers in
    continue_with (restore_scroll key (listed true false images) positions) more

-- Whether the list gets as many images as it had, or all there are, before a request fails.
abbrev pub is_reached : ℕ → ℕ → List (Option ℕ) → Bool
is_reached wanted images [] = true
is_reached wanted images (none ∷ answers) = leb wanted images
is_reached wanted images (some n ∷ answers) =
    let later = is_reached wanted (images + n) answers in leb wanted images || later

module _ (key : Text) (positions : Positions) (target : Position)
    (found : lookup key positions ≡ some target) where
  scrolled :
      (images : ℕ)
      → restore_scroll key (listed false false images) positions
        ≡ (scroll_to target.top, remove key positions)
  unfolding restore_scroll
  scrolled images = ground (arith, found)

  failed :
      (images : ℕ) → restore_scroll key (listed true true images) positions ≡ (nothing, positions)
  unfolding restore_scroll
  failed images = ground (arith, found)

  asked :
      (images : ℕ) (later : Restore × Positions)
      → continue_with (restore_scroll key (listed true false images) positions) later
        ≡ (if leb target.count images then (scroll_to target.top, remove key positions) else later)
  unfolding restore_scroll
  asked images later = ground (arith, found)

  if-or {ℓ} :
      {A : Type ℓ} (a b : Bool) (x y : A)
      → (if a then x else if b then x else y) ≡ (if a || b then x else y)
  if-or a b x y = ground arith

-- A list whose position was kept is scrolled back to it, and the position forgotten, exactly if the pages
-- that are still to come bring as many images as it had, or all there are, before a request for one of
-- them fails; whatever the pages hold. Where a request fails before, nothing is scrolled and the position
-- is kept.
pub restore_all_lem :
    (key : Text) (positions : Positions) (images : ℕ) (answers : List (Option ℕ))
    (target : Position)
    → lookup key positions ≡ some target
    → restore_all key positions images answers ≡ (
        if is_reached target.count images answers
        then (scroll_to target.top, remove key positions)
        else (nothing, positions))
unfolding restore_all
restore_all_lem key positions images [] target found = scrolled key positions target found images
restore_all_lem key positions images (none ∷ answers) target found =
    rw (failed key positions target found images)
      (asked key positions target found images (nothing, positions))
restore_all_lem key positions images (some n ∷ answers) target found =
    rw (restore_all_lem key positions (images + n) answers target found) (
      asked key positions target found images (
        if is_reached target.count (images + n) answers
        then (scroll_to target.top, remove key positions)
        else (nothing, positions))
      ∙ if-or key positions target found (leb target.count images)
          (is_reached target.count (images + n) answers)
          (scroll_to target.top, remove key positions) (nothing, positions))
