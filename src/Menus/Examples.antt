-- ===== src/Menus/Examples.antt =====
-- The theorems at concrete values.
use imagesilo.Common.{◌≡◌, refl, true, false, none, some, arith}
use imagesilo.Common.Text.{codes}
use imagesilo.Menus.{MenuKey, Menu, menu_key, encode_value, decode_value, SelectState, change_value}
use imagesilo.Menus.Laws.{menu_key_lem}

abbrev menu : Menu
menu = record { is_open = true; items = 4; focused = some 3; trigger_is_focused = false }

menu_key_lem_example :
    ((menu_key MenuKey.arrow_down menu).focused ≡ some 0)
    × ((menu_key MenuKey.arrow_up menu).focused ≡ some 2)
    × ((menu_key MenuKey.arrow_up (menu_key MenuKey.arrow_down menu)).focused ≡ some 3)
    × ((menu_key MenuKey.arrow_down (menu_key MenuKey.arrow_up menu)).focused ≡ some 3)
    × ((menu_key MenuKey.home menu).focused ≡ some 0)
    × ((menu_key MenuKey.end_key menu).focused ≡ some 3)
menu_key_lem_example = menu_key_lem 3 menu refl (omega arith)

abbrev state : SelectState
state = record { value = none; default_value = codes ""; internal_value = codes "png" }

chosen_run : (change_value (encode_value (codes "")) state).1 ≡ codes ""
unfolding change_value encode_value decode_value
chosen_run = refl
