-- ===== src/Modal/Keys.antt =====
-- A dialog's keys and presses, and where the focus goes in it.
use imagesilo.Common.{
  ℕ, suc, ◌+◌, ◌-◌, ◌*◌, ◌%◌, Bool, false, not, ◌&&◌, ◌||◌, Option, none, some, List, [], ◌∷◌, ◌++◌,
  length, get_elem?, ltb, ◌==◌, nat_eq, if◌then◌else◌,
}
use imagesilo.Modal.{top, is_top}

pub data Key : Type 0 where
  escape tab other_key : Key

pub record KeyEvent : Type 0 where
  pub key : Key
  pub shift : Bool
  -- Whether the event comes from the notifications.
  pub in_notifications : Bool

-- What the handler does: nothing, `onClose`, or it moves the focus to the dialog or to an element.
pub data KeyAction : Type 0 where
  ignore close focus_dialog : KeyAction
  focus_element : ℕ → KeyAction

-- `array.indexOf`
unfoldable pub index_of : ℕ → List ℕ → Option ℕ
index_of element [] = none
index_of element (x ∷ xs) =
    let rest = index_of element xs in
    if x == element then some 0 else elim rest [ none ↦ none | some i ↦ some (suc i) ]

-- The index of the element that `Tab` goes to among `n` elements.
unfoldable pub next_index : Option ℕ → Bool → ℕ → ℕ
next_index none shift n = if shift then n - 1 else 0
next_index (some index) shift n = (if shift then index + n - 1 else index + 1 + n) % n

-- `candidates` are the dialog's elements that take the focus and the buttons of the notifications.
unfoldable pub handle_key_down : ℕ → List ℕ → Bool → List ℕ → List ℕ → ℕ → KeyEvent → KeyAction
unfolding index_of next_index top
handle_key_down id stack is_open elements notifications active event =
    let candidates = elements ++ notifications in
    if not (is_top id stack) then ignore else elim event.key [
      | escape ↦ if event.in_notifications || not is_open then ignore else close
      | other_key ↦ ignore
      | tab ↦
          if length candidates == 0
          then focus_dialog
          else elim (get_elem? candidates
              (next_index (index_of active candidates) event.shift (length candidates))) [
                | none ↦ ignore
                | some element ↦ focus_element element
              ]
    ]

-- An element of a dialog that takes the focus: its attribute `data-modal-initial-focus`, and whether
-- it is the close button.
pub record Focusable : Type 0 where
  pub element : ℕ
  pub is_marked : Bool
  pub is_close : Bool

unfoldable pub first_where {ℓ} : {A : Type ℓ} → (A → Bool) → List A → Option A
first_where p [] = none
first_where p (x ∷ xs) = let rest = first_where p xs in if p x then some x else rest

-- The element that gets the focus when the dialog is shown; `none` stands for the dialog itself.
unfoldable pub initial_focus : List Focusable → Option ℕ
unfolding first_where
initial_focus candidates = elim (first_where Focusable.is_marked candidates) [
  | some c ↦ some c.element
  | none ↦ elim (first_where (λ (c : Focusable). not c.is_close) candidates) [
    | some c ↦ some c.element
    | none ↦ none
  ]
]

-- A pointer event on the dialog's root. Coordinates are in pixels.
pub record Pointer : Type 0 where
  pub on_root : Bool
  pub in_content : Bool
  pub is_primary : Bool
  pub x : ℕ
  pub y : ℕ

-- `backdropPress`
unfoldable pub on_pointer_down : Pointer → Option (ℕ × ℕ)
on_pointer_down event =
    if event.on_root && event.in_content && event.is_primary then some (event.x, event.y) else none

abbrev pub gap : ℕ → ℕ → ℕ
gap a b = (a - b) + (b - a)

-- The flag says whether `onClose` is called; the press is forgotten.
unfoldable pub on_click : Bool → ℕ → List ℕ → Option (ℕ × ℕ) → Pointer → Bool × Option (ℕ × ℕ)
unfolding top
on_click is_open id stack press event = elim press [
  | none ↦ (false, none)
  | some (x, y) ↦ (
    is_open
        && is_top id stack
        && event.on_root
        && ltb (gap event.x x * gap event.x x + gap event.y y * gap event.y y) 64,
    none,
  )
]
