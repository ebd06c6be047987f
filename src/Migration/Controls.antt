-- ===== src/Migration/Controls.antt =====
-- The controls of a card do what their state says.
use imagesilo.Common.{
  ◌<◌, ◌≡◌, sym, ◌∙◌, true, false, not, ◌&&◌, Option, List, [], ◌∷◌, length, nat_eq, list_eq, arith,
}
use imagesilo.Common.Text.{Text}
use imagesilo.Common.Collections.{has, has-add, has-delete_self}
use imagesilo.Common.{eq_iff}
use imagesilo.Api.{MigrationImage}
use imagesilo.Migration.{MigrationPage, mutations_enabled, toggle_path, ask_delete}
use imagesilo.Migration.Card.{migration_card, is_enabled}

checkbox_enabled :
    (decode_uri : Text → Option Text) (page : MigrationPage) (image : MigrationImage)
    → is_enabled (migration_card decode_uri page image).checkbox
      ≡ (mutations_enabled page && not page.delete_pending)
unfolding migration_card
checkbox_enabled decode_uri page image = ground arith

toggle_path_on :
    (path : Text) (page : MigrationPage)
    → page.delete_pending ≡ false
    → mutations_enabled page ≡ true
    → length page.selected < 100
    → has path (toggle_path path page).selected ≡ not (has path page.selected)
unfolding toggle_path
toggle_path_on path page free enabled room = ground (
  arith,
  free,
  enabled,
  room,
  has-add path path page.selected,
  has-delete_self path page.selected,
  eq_iff path path,
)

toggle_path_off :
    (path : Text) (page : MigrationPage)
    → (mutations_enabled page && not page.delete_pending) ≡ false
    → toggle_path path page ≡ page
unfolding toggle_path
toggle_path_off path page off = ground (arith, off)

ask_delete_off :
    (paths : List Text) (page : MigrationPage)
    → (mutations_enabled page && not page.delete_pending) ≡ false
    → ask_delete paths page ≡ page
unfolding ask_delete
ask_delete_off paths page off = ground (arith, off)

-- The checkbox of a card is enabled exactly if the service allows changes and no deletion is under
-- way. Where it is not, neither it nor the card's button changes anything; where it is and fewer than
-- 100 paths are selected, it selects the image if it was not selected and else deselects it.
pub card_controls :
    (decode_uri : Text → Option Text) (page : MigrationPage) (image : MigrationImage)
    → (is_enabled (migration_card decode_uri page image).checkbox
        ≡ (mutations_enabled page && not page.delete_pending))
      × (is_enabled (migration_card decode_uri page image).checkbox ≡ false
          → (toggle_path image.path page ≡ page) × (ask_delete (image.path ∷ []) page ≡ page))
      × (is_enabled (migration_card decode_uri page image).checkbox ≡ true
          → length page.selected < 100
          → has image.path (toggle_path image.path page).selected
            ≡ not (has image.path page.selected))
card_controls decode_uri page image =
    let e = checkbox_enabled decode_uri page image in
    (
      e,
      λ off. (
        toggle_path_off image.path page (sym e ∙ off),
        ask_delete_off (image.path ∷ []) page (sym e ∙ off),
      ),
      λ enabled room.
          toggle_path_on image.path page (ground (arith, e, enabled)) (ground (arith, e, enabled))
            room,
    )
