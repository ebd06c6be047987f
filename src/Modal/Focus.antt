-- ===== src/Modal/Focus.antt =====
-- Where `Tab` goes: it stays among the elements of the dialog on top, and it can be undone.
use imagesilo.Common.{
  ℕ, zero, suc, ◌+◌, ◌-◌, ◌%◌, ◌<◌, ◌≡◌, inl, inr, ap, ◌∙◌, Bool, true, false, not, some, List,
  nat_eq, if◌then◌else◌, arith, Bool-cases, nat_beq,
}
use imagesilo.Modal.{is_top}
use imagesilo.Modal.Keys.{next_index, Pointer, on_pointer_down, on_click}
use native.Mathlib.Nat.{mod-eq_of_lt, mod_self, add-mod_right}

-- One more, or one less, around a circle of `n`.
pub forward :
    (i n : ℕ) → i < n → next_index (some i) false n ≡ (if nat_beq (suc i) n then 0 else suc i)
unfolding next_index
forward i n h = elim (Bool-cases (nat_beq (suc i) n)) [
  | inl last ↦ ground (arith, add-mod_right (i + 1) n, mod-self_eq (i + 1) n)
  | inr inner ↦ ground (arith, add-mod_right (i + 1) n, λ (k : i + 1 < n). mod-eq_of_lt k)
]
  where
    mod-self_eq : (a b : ℕ) → a ≡ b → a % b ≡ 0
    mod-self_eq a b e = rw e (mod_self b)

pub backward :
    (i n : ℕ) → i < n → next_index (some i) true n ≡ (if nat_beq i 0 then n - 1 else i - 1)
unfolding next_index
backward zero n h =
    let e : 0 + n - 1 ≡ n - 1 = omega arith in ap (◌% n) e ∙ mod-eq_of_lt (omega (arith, h))
backward (suc i) n h =
    let e : suc i + n - 1 ≡ i + n = omega arith in
    ap (◌% n) e ∙ add-mod_right i n ∙ mod-eq_of_lt (omega (arith, h)) ∙ ground arith

pub next_index-lt : (i n : ℕ) (shift : Bool) → i < n → next_index (some i) shift n < n
next_index-lt i n true h = rw (backward i n h) (ground arith)
next_index-lt i n false h = rw (forward i n h) (ground arith)

pub next_index-back :
    (i n : ℕ) (shift : Bool)
    → i < n
    → next_index (some (next_index (some i) shift n)) (not shift) n ≡ i
next_index-back i n true h =
    forward (next_index (some i) true n) n (next_index-lt i n true h)
    ∙ rw (backward i n h) (ground arith)
next_index-back i n false h =
    backward (next_index (some i) false n) n (next_index-lt i n false h)
    ∙ rw (forward i n h) (ground arith)

-- A click closes the dialog only if it is open and on top, and the press before it began on the
-- backdrop with the primary button.
pub on_click_lem :
    (is_open : Bool) (id : ℕ) (stack : List ℕ) (press release : Pointer)
    → (on_click is_open id stack (on_pointer_down press) release).0 ≡ true
    → (is_open ≡ true)
      × (is_top id stack ≡ true)
      × (press.on_root ≡ true)
      × (press.in_content ≡ true)
      × (press.is_primary ≡ true)
      × (release.on_root ≡ true)
unfolding on_click on_pointer_down
on_click_lem is_open id stack press release h = ground (arith, h)
