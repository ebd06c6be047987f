-- ===== src/Menus/Laws.antt =====
-- The arrows go round the items, and a choice is handed on as its option has it.
use imagesilo.Common.{
  ℕ, suc, ◌<◌, ◌≡◌, refl, ap, ◌∙◌, true, false, none, some, [], ◌∷◌, ◌==◌, nat_eq, list_eq, ◌-◌,
  ◌≤◌, arith, Option, or_else, nat_beq, if◌then◌else◌,
}
use imagesilo.Common.Text.{Text}
use imagesilo.Modal.Keys.{next_index}
use imagesilo.Modal.Focus.{forward, backward, next_index-back}
use imagesilo.Menus.{
  arrow_down, arrow_up, home, end_key, Menu, menu_key, empty_value, encode_value, decode_value,
  SelectState, selected_value, change_value,
}

-- An arrow moves the focus as `Tab` does in a dialog.
menu_key_next :
    (n i : ℕ) (menu : Menu)
    → menu.items ≡ suc n
    → menu.focused ≡ some i
    → ((menu_key arrow_down menu).focused ≡ some (next_index (some i) false (suc n)))
      × ((menu_key arrow_up menu).focused ≡ some (next_index (some i) true (suc n)))
      × ((menu_key arrow_down menu).items ≡ suc n)
      × ((menu_key arrow_up menu).items ≡ suc n)
unfolding menu_key next_index
menu_key_next n i menu e f = (rw (e, f) refl, rw (e, f) refl, rw e refl, rw e refl)

-- The item after the one with the focus, and the one before it, around `suc n` items.
abbrev pub item_after : ℕ → Option ℕ → ℕ
item_after n none = 0
item_after n (some i) = if nat_beq i n then 0 else suc i

abbrev pub item_before : ℕ → Option ℕ → ℕ
item_before n none = n
item_before n (some i) = if nat_beq i 0 then n else i - 1

menu_key_ends :
    (n : ℕ) (menu : Menu)
    → menu.items ≡ suc n
    → ((menu_key home menu).focused ≡ some 0) × ((menu_key end_key menu).focused ≡ some n)
unfolding menu_key
menu_key_ends n menu e = (rw e refl, rw e refl)

menu_key_first :
    (n : ℕ) (menu : Menu)
    → menu.items ≡ suc n
    → menu.focused ≡ none
    → ((menu_key arrow_down menu).focused ≡ some 0)
      × ((menu_key arrow_up menu).focused ≡ some n)
      × ((menu_key arrow_down menu).items ≡ suc n)
      × ((menu_key arrow_up menu).items ≡ suc n)
unfolding menu_key
menu_key_first n menu e f = (rw (e, f) refl, rw (e, f) refl, rw e refl, rw e refl)

menu_arrows :
    (n : ℕ) (focus : Option ℕ) (menu : Menu)
    → menu.items ≡ suc n
    → menu.focused ≡ focus
    → or_else focus 0 ≤ n
    → ((menu_key arrow_down menu).focused ≡ some (item_after n focus))
      × ((menu_key arrow_up menu).focused ≡ some (item_before n focus))
      × ((menu_key arrow_up (menu_key arrow_down menu)).focused ≡ some (or_else focus n))
      × ((menu_key arrow_down (menu_key arrow_up menu)).focused ≡ some (or_else focus 0))
menu_arrows n none menu e f h =
    let first = menu_key_first n menu e f in
    let down = menu_key_next n 0 (menu_key arrow_down menu) first.2 first.0 in
    let up = menu_key_next n n (menu_key arrow_up menu) first.3 first.1 in
    (
      first.0,
      first.1,
      down.1 ∙ ap some (backward 0 (suc n) (omega arith) ∙ ground arith),
      up.0 ∙ ap some (forward n (suc n) (omega arith) ∙ ground arith),
    )
menu_arrows n (some i) menu e f h =
    let moved = menu_key_next n i menu e f in
    let inside : i < suc n = omega (arith, h) in
    let down =
      menu_key_next n (next_index (some i) false (suc n)) (menu_key arrow_down menu) moved.2
        moved.0 in
    let up =
      menu_key_next n (next_index (some i) true (suc n)) (menu_key arrow_up menu) moved.3 moved.1 in
    (
      moved.0 ∙ ap some (forward i (suc n) inside ∙ ground arith),
      moved.1 ∙ ap some (backward i (suc n) inside ∙ ground arith),
      down.1 ∙ ap some (next_index-back i (suc n) false inside),
      up.0 ∙ ap some (next_index-back i (suc n) true inside),
    )

-- In a menu with an item, where none or one of its items has the focus: the key down leads to the next
-- item and from the last to the first, the key up to the one before and from the first to the last;
-- without a focus they lead to the first and to the last. `Home` leads to the first item and `End` to the
-- last, and after down and up, or up and down, the item that had the focus has it again.
pub menu_key_lem :
    (n : ℕ) (menu : Menu)
    → menu.items ≡ suc n
    → or_else menu.focused 0 ≤ n
    → ((menu_key arrow_down menu).focused ≡ some (item_after n menu.focused))
      × ((menu_key arrow_up menu).focused ≡ some (item_before n menu.focused))
      × ((menu_key arrow_up (menu_key arrow_down menu)).focused ≡ some (or_else menu.focused n))
      × ((menu_key arrow_down (menu_key arrow_up menu)).focused ≡ some (or_else menu.focused 0))
      × ((menu_key home menu).focused ≡ some 0)
      × ((menu_key end_key menu).focused ≡ some n)
menu_key_lem n menu e h =
    let arrows = menu_arrows n menu.focused menu e refl h in
    let ends = menu_key_ends n menu e in (arrows.0, arrows.1, arrows.2, arrows.3, ends.0, ends.1)

decode-encode :
    (value : Text) → (value == empty_value) ≡ false → decode_value (encode_value value) ≡ value
unfolding encode_value decode_value
decode-encode [] h = refl
decode-encode (c ∷ s) h = rw h refl

-- A select without a value of its own property: the option that is chosen, the empty one included, is what
-- it then shows and what its form sends, and what its listener is told, unless the option's value is the
-- text that stands for the empty one.
pub change_value_lem :
    (value : Text) (state : SelectState)
    → (value == empty_value) ≡ false
    → state.value ≡ none
    → (selected_value (change_value (encode_value value) state).0 ≡ value)
      × ((change_value (encode_value value) state).1 ≡ value)
unfolding change_value
change_value_lem value state h free = let same = decode-encode value h in (rw free same, same)
