-- ===== src/Modal/Examples.antt =====
-- Two dialogs over one page, the lower of which closes first.
use imagesilo.Common.{
  ℕ, ◌≤◌, ◌≡◌, ◌⊎◌, refl, Bool, true, false, none, some, [], ◌∷◌, count, ◌==◌, nat_eq,
}
use imagesilo.Common.Text.{codes}
use imagesilo.Common.Collections.{has, lookup}
use imagesilo.Modal.{Desk, Modal, mount, unmount}
use imagesilo.Modal.Invariant.{IsClean, Reaches, begun, opened, closed, over}
use imagesilo.Modal.Restore.{background_lem, page_restored}
use imagesilo.Modal.Keys.{Pointer}
use imagesilo.Modal.Stages.{StageEvent, IsSettled, first_stage, run_stages, stages-IsSettled}

abbrev page : Desk
page = record {
  stack = [];
  locks = [];
  original_overflow = [];
  original_focus = none;
  inert = λ element. element == 11;
  aria_hidden = λ element. none;
  overflow = codes "auto";
  focus = some 20;
  owner = none;
}

abbrev is_connected : ℕ → Bool
is_connected element = true

-- Elements 10 and 11 are the page's; 1 and 2 are the roots of the two dialogs.
abbrev lower : Modal
lower = record { id = 1; background = 10 ∷ 11 ∷ []; previous_focus = some 20 }

abbrev upper : Modal
upper = record { id = 2; background = 10 ∷ 11 ∷ 1 ∷ []; previous_focus = some 21 }

page-IsClean : IsClean page
page-IsClean = record { no_dialog = refl; no_lock = refl; no_owner = refl }

both_open : Reaches is_connected page (lower ∷ upper ∷ []) (mount upper (mount lower page))
unfolding has
both_open =
    opened upper (opened lower (begun page-IsClean) (refl, (refl, tt)) refl)
      (refl, (refl, (refl, tt))) refl

one_left :
    Reaches is_connected page
      (upper ∷ [])
      (unmount is_connected lower (mount upper (mount lower page)))
one_left = closed [] lower (upper ∷ []) both_open

none_left :
    Reaches is_connected page []
      (unmount is_connected upper (unmount is_connected lower (mount upper (mount lower page))))
none_left = closed [] upper [] one_left

abbrev half_closed : Desk
half_closed = unmount is_connected lower (mount upper (mount lower page))

background_lem_example :
    ((count (over 10) (upper ∷ []) ≡ 0)
      × (half_closed.inert 10 ≡ false)
      × (half_closed.aria_hidden 10 ≡ none))
    ⊎ ((1 ≤ count (over 10) (upper ∷ []))
        × (half_closed.inert 10 ≡ true)
        × (half_closed.aria_hidden 10 ≡ some (codes "true")))
background_lem_example = background_lem is_connected page (upper ∷ []) half_closed 10 one_left

page_restored_example :
    ((element : ℕ) → lookup element (unmount is_connected upper half_closed).locks ≡ none)
    × ((unmount is_connected upper half_closed).stack ≡ [])
    × ((unmount is_connected upper half_closed).overflow ≡ codes "auto")
page_restored_example =
    page_restored is_connected page (unmount is_connected upper half_closed) none_left

abbrev press : Pointer
press = record { on_root = true; in_content = true; is_primary = true; x = 5; y = 5 }

stages-IsSettled_example :
    IsSettled (run_stages (StageEvent.set_open false ∷ StageEvent.timeout ∷ []) (first_stage true))
stages-IsSettled_example =
    stages-IsSettled true (StageEvent.set_open false ∷ StageEvent.timeout ∷ [])
