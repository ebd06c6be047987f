-- ===== src/ImageListPage/Refinement.antt =====
-- The selection as a set: what it holds and how much, without its order.
use imagesilo.Common.{
  ℕ, suc, ◌-◌, ◌≡◌, refl, ap, ◌∙◌, Bool, true, false, not, ◌&&◌, ◌||◌, List, [], ◌∷◌, length,
  length-append, leb, ◌==◌, nat_eq, list_eq, eq_iff, if◌then◌else◌, arith, Bool-cases, inl, inr,
}
use imagesilo.Common.Text.{Text}
use imagesilo.Common.Collections.{
  has, add, delete, has-add, has-delete, IsDistinct, length-delete-has,
}
use imagesilo.Batch.{IsBatch}
use imagesilo.ImageListPage.Selection.{
  ListPage, busy, toggle_selected, ListEvent, list_step, run_list,
}
use imagesilo.ImageListPage.Bounds.{toggle-IsBatch}

-- The specification: a set of at most 100 images and its size. A press on an image flips it; a set that
-- is full takes no more, and while something is under way nothing changes.
pub record Chosen : Type 0 where
  pub members : Text → Bool
  pub size : ℕ

unfoldable pub flip : Text → Chosen → Chosen
flip id chosen = record {
  members = λ j. if id == j then not (chosen.members j) else chosen.members j;
  size = if chosen.members id then chosen.size - 1 else suc chosen.size;
}

unfoldable pub choose : Bool → Text → Chosen → Chosen
choose blocked id chosen =
    if blocked || not (chosen.members id) && leb 100 chosen.size then chosen else flip id chosen

abbrev pub chosen_of : List Text → Chosen
chosen_of ids = record { members = λ j. has j ids; size = length ids }

delete-flip :
    (id : Text) (ids : List Text)
    → IsDistinct ids
    → has id ids ≡ true
    → chosen_of (delete id ids) ≡ flip id (chosen_of ids)
unfolding flip
delete-flip id ids d found = λ i. record { members = λ j. members j i; size = size i }
  where
    members : (j : Text) → has j (delete id ids) ≡ (if id == j then not (has j ids) else has j ids)
    members j = ground (arith, has-delete id j ids, eq_iff id j, found)

    size : length (delete id ids) ≡ (if has id ids then length ids - 1 else suc (length ids))
    size = ground (arith, found, length-delete-has id ids d found)

add-flip :
    (id : Text) (ids : List Text)
    → has id ids ≡ false
    → chosen_of (add id ids) ≡ flip id (chosen_of ids)
unfolding flip
add-flip id ids absent = λ i. record { members = λ j. members j i; size = size i }
  where
    members : (j : Text) → has j (add id ids) ≡ (if id == j then not (has j ids) else has j ids)
    members j = ground (arith, has-add id j ids, eq_iff id j, absent)

    size : length (add id ids) ≡ (if has id ids then length ids - 1 else suc (length ids))
    size = unfold add in ground (arith, absent, length-append ids (id ∷ []))

-- What is selected after a press.
abbrev toggled : Bool → Text → List Text → List Text
toggled blocked id ids =
    if blocked
    then ids
    else if has id ids
    then delete id ids
    else if leb 100 (length ids)
    then ids
    else add id ids

toggle_selected_selected :
    (id : Text) (page : ListPage)
    → (toggle_selected id page).selected ≡ toggled (busy page) id page.selected
unfolding toggle_selected
toggle_selected_selected id page = ground arith

toggled-choose :
    (blocked : Bool) (id : Text) (ids : List Text)
    → IsDistinct ids
    → chosen_of (toggled blocked id ids) ≡ choose blocked id (chosen_of ids)
unfolding choose
toggled-choose true id ids d = refl
toggled-choose false id ids d = elim (Bool-cases (has id ids)) [
  | inl found ↦ rw found (delete-flip id ids d found)
  | inr absent ↦ elim (Bool-cases (leb 100 (length ids))) [
    | inl full ↦ rw (absent, full) refl
    | inr room ↦ rw (absent, room) (add-flip id ids absent)
  ]
]

toggle_selected-choose :
    (id : Text) (page : ListPage)
    → IsDistinct page.selected
    → chosen_of (toggle_selected id page).selected ≡ choose (busy page) id (chosen_of page.selected)
toggle_selected-choose id page d =
    ap chosen_of (toggle_selected_selected id page) ∙ toggled-choose (busy page) id page.selected d

busy-toggle_selected : (id : Text) (page : ListPage) → busy (toggle_selected id page) ≡ busy page
unfolding toggle_selected
busy-toggle_selected id page = ground arith

abbrev pub toggles : List Text → List ListEvent
toggles [] = []
toggles (id ∷ ids) = ListEvent.toggle id ∷ toggles ids

unfoldable pub choose_all : Bool → List Text → Chosen → Chosen
choose_all blocked [] chosen = chosen
choose_all blocked (id ∷ ids) chosen = choose_all blocked ids (choose blocked id chosen)

-- Presses on checkboxes, however many and in whatever order, from a selection of at most 100 images
-- without repetition: what is then selected is, as a set with its size, what the specification says.
pub toggles-choose_all :
    (ids : List Text) (page : ListPage)
    → IsBatch page.selected
    → chosen_of (run_list (toggles ids) page).selected
      ≡ choose_all (busy page) ids (chosen_of page.selected)
unfolding run_list choose_all list_step
toggles-choose_all [] page h = refl
toggles-choose_all (id ∷ ids) page h =
    toggles-choose_all ids (toggle_selected id page) (toggle-IsBatch id page h)
    ∙ ap (λ (blocked : Bool). choose_all blocked ids (chosen_of (toggle_selected id page).selected))
        (busy-toggle_selected id page)
    ∙ ap (choose_all (busy page) ids) (toggle_selected-choose id page h.distinct)
