-- ===== src/Menus.antt =====
-- Menus and selects: the keys of web/src/components/ui/dropdown-menu.tsx, and the values of
-- web/src/components/ui/select.tsx.
pub mod Laws
mod Examples
use imagesilo.Common.{
  ℕ, zero, suc, ◌+◌, ◌-◌, ◌%◌, Bool, true, false, Option, none, some, List, [], ◌∷◌, ◌==◌, nat_eq,
  list_eq, if◌then◌else◌, or_else,
}
use imagesilo.Common.Text.{Text, codes}

pub data MenuKey : Type 0 where
  escape tab arrow_down arrow_up home end_key : MenuKey
  other_key : MenuKey

-- An open menu: how many items it has, and which of them is focused, where one is.
pub record Menu : Type 0 where
  pub is_open : Bool
  pub items : ℕ
  pub focused : Option ℕ
  pub trigger_is_focused : Bool

-- The item that an arrow leads to, of `suc n` items.
abbrev pub arrow_down_from : ℕ → Option ℕ → ℕ
arrow_down_from n none = 0
arrow_down_from n (some current) = (current + 1 + suc n) % suc n

abbrev pub arrow_up_from : ℕ → Option ℕ → ℕ
arrow_up_from n none = n
arrow_up_from n (some current) = (current + suc n - 1) % suc n

abbrev pub focus_item : (ℕ → Option ℕ → ℕ) → Menu → Menu
focus_item next menu = elim menu.items [
  | zero ↦ menu
  | suc n ↦ record menu { focused = some (next n menu.focused); trigger_is_focused = false }
]

-- `handleKeyDown`, for a key pressed inside the menu or on its trigger.
unfoldable pub menu_key : MenuKey → Menu → Menu
menu_key escape menu = record menu { is_open = false; focused = none; trigger_is_focused = true }
menu_key tab menu = record menu { is_open = false }
menu_key home menu = focus_item (λ n current. 0) menu
menu_key end_key menu = focus_item (λ n current. n) menu
menu_key arrow_down menu = focus_item arrow_down_from menu
menu_key arrow_up menu = focus_item arrow_up_from menu
menu_key other_key menu = menu

-- A press or a focus outside closes the menu.
unfoldable pub menu_outside : Bool → Menu → Menu
menu_outside is_inside menu = if is_inside then menu else record menu { is_open = false }

-- A press on an item: the trigger takes the focus.
unfoldable pub press_item : Menu → Menu
press_item menu = record menu { focused = none; trigger_is_focused = true }

abbrev pub empty_value : Text
empty_value = codes "__imagesilo_empty__"

unfoldable pub encode_value : Text → Text
encode_value value = if value == [] then empty_value else value

unfoldable pub decode_value : Text → Text
decode_value value = if value == empty_value then [] else value

-- A select: its value is a property, or its own, which a reset of its form sets back.
pub record SelectState : Type 0 where
  pub value : Option Text
  pub default_value : Text
  pub internal_value : Text

abbrev pub selected_value : SelectState → Text
selected_value state = or_else state.value state.internal_value

abbrev pub keep_or_set : Option Text → Text → SelectState → SelectState
keep_or_set none next state = record state { internal_value = next }
keep_or_set (some value) next state = state

-- `change`: the state after it, and what `onValueChange` is called with.
unfoldable pub change_value : Text → SelectState → SelectState × Text
unfolding decode_value
change_value encoded state =
    (keep_or_set state.value (decode_value encoded) state, decode_value encoded)

unfoldable pub reset_value : SelectState → SelectState
reset_value state = keep_or_set state.value state.default_value state
