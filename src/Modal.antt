-- ===== src/Modal.antt =====
-- The modal dialogs, web/src/components/ui/modal.tsx: the stack of open dialogs and what they do to
-- the document, and one dialog's keys, presses and stages. Elements are numbers, as are the
-- identifiers of dialogs.
pub mod Locks
pub mod Invariant
pub mod Restore
pub mod Keys
pub mod Focus
pub mod Stages
mod Examples
use imagesilo.Common.{
  ℕ, zero, suc, ◌+◌, ◌-◌, Bool, true, false, not, ◌&&◌, Option, none, some, List, [], ◌∷◌, ◌++◌,
  length, ltb, ◌==◌, nat_eq, nat_beq, if◌then◌else◌, or_else,
}
use imagesilo.Common.Text.{Text, codes}
use imagesilo.Common.Collections.{has, lookup, insert, remove}

-- An entry of `backgroundLocks`.
pub record Lock : Type 0 where
  pub count : ℕ
  pub inert : Bool
  pub aria_hidden : Option Text

-- The module's variables, and the parts of the document that the dialogs write. At most one dialog
-- has the attribute `aria-owns`.
pub record Desk : Type 0 where
  pub stack : List ℕ
  pub locks : List (ℕ × Lock)
  pub original_overflow : Text
  pub original_focus : Option ℕ
  pub inert : ℕ → Bool
  pub aria_hidden : ℕ → Option Text
  pub overflow : Text
  pub focus : Option ℕ
  pub owner : Option ℕ

-- What the effect of a mounted dialog keeps for its clean-up.
pub record Modal : Type 0 where
  pub id : ℕ
  pub background : List ℕ
  pub previous_focus : Option ℕ

abbrev pub update_at {ℓ} : {A : Type ℓ} → ℕ → A → (ℕ → A) → ℕ → A
update_at i a f j = if i == j then a else f j

-- The lock of an element, one more dialog counted.
abbrev pub counted : ℕ → Desk → Lock
counted element desk =
    let lock =
      or_else (lookup element desk.locks) (record {
        count = 0;
        inert = desk.inert element;
        aria_hidden = desk.aria_hidden element;
      }) in
    record lock { count = suc lock.count }

unfoldable pub lock_element : ℕ → Desk → Desk
unfolding lookup insert
lock_element element desk = record desk {
  locks = insert element (counted element desk) desk.locks;
  inert = update_at element true desk.inert;
  aria_hidden = update_at element (some (codes "true")) desk.aria_hidden;
}

unfoldable pub lock_all : List ℕ → Desk → Desk
unfolding lock_element
lock_all [] desk = desk
lock_all (element ∷ elements) desk = lock_all elements (lock_element element desk)

-- The count goes down; the last dialog over the element restores it.
unfoldable pub unlock_element : ℕ → Desk → Desk
unfolding lookup insert remove
unlock_element element desk = elim (lookup element desk.locks) [
  | none ↦ desk
  | some lock ↦
      if ltb 0 (lock.count - 1)
      then record desk {
        locks = insert element (record lock { count = lock.count - 1 }) desk.locks;
      }
      else record desk {
        inert = update_at element lock.inert desk.inert;
        aria_hidden = update_at element lock.aria_hidden desk.aria_hidden;
        locks = remove element desk.locks;
      }
]

unfoldable pub unlock_all : List ℕ → Desk → Desk
unfolding unlock_element
unlock_all [] desk = desk
unlock_all (element ∷ elements) desk = unlock_all elements (unlock_element element desk)

-- `stack.at(-1)`
unfoldable pub top : List ℕ → Option ℕ
top [] = none
top (id ∷ []) = some id
top (_ ∷ id ∷ ids) = top (id ∷ ids)

abbrev pub is_top : ℕ → List ℕ → Bool
is_top id stack = elim (top stack) [ none ↦ false | some t ↦ t == id ]

-- `lastIndexOf` and `splice`
unfoldable pub remove_last : ℕ → List ℕ → List ℕ
unfolding has
remove_last id [] = []
remove_last id (x ∷ xs) =
    let rest = remove_last id xs in if has id xs then x ∷ rest else if x == id then xs else x ∷ xs

-- The layout effect of a dialog that is mounted, up to the locks. The element with the focus is
-- `previous_focus`.
unfoldable pub enter_stack : Modal → Desk → Desk
enter_stack modal desk =
    let noted =
      if length desk.stack == 0
      then record desk { original_overflow = desk.overflow; original_focus = modal.previous_focus }
      else desk in
    record noted {
      owner = some modal.id;
      stack = noted.stack ++ modal.id ∷ [];
      overflow = codes "hidden";
    }

unfoldable pub mount : Modal → Desk → Desk
unfolding enter_stack lock_all
mount modal desk = lock_all modal.background (enter_stack modal desk)

abbrev pub give_focus : (ℕ → Bool) → Option ℕ → Desk → Desk
give_focus is_connected none desk = desk
give_focus is_connected (some element) desk =
    if is_connected element then record desk { focus = some element } else desk

abbrev pub disown : ℕ → Option ℕ → Option ℕ
disown id none = none
disown id (some owner) = if owner == id then none else some owner

-- The clean-up, up to the locks: the stack, and the attribute `aria-owns`.
unfoldable pub leave_stack : Modal → Desk → Desk
unfolding top remove_last
leave_stack modal desk =
    let rest = remove_last modal.id desk.stack in
    record desk {
      stack = rest;
      owner =
          if is_top modal.id desk.stack && ltb 0 (length rest)
          then top rest
          else disown modal.id desk.owner;
    }

-- The end of the clean-up: the page's own overflow and focus, or the focus before this dialog.
unfoldable pub restore : (ℕ → Bool) → Bool → Modal → Desk → Desk
restore is_connected was_top modal desk =
    if length desk.stack == 0
    then record (give_focus is_connected desk.original_focus
        (record desk { overflow = desk.original_overflow })) { original_focus = none }
    else if was_top
    then give_focus is_connected modal.previous_focus desk
    else desk

unfoldable pub unmount : (ℕ → Bool) → Modal → Desk → Desk
unfolding leave_stack unlock_all restore top
unmount is_connected modal desk =
    restore is_connected (is_top modal.id desk.stack) modal
      (unlock_all modal.background (leave_stack modal desk))
