-- ===== src/Modal/Locks.antt =====
-- What locking and unlocking the background do to one element.
use imagesilo.Common.{
  ℕ, zero, suc, ◌+◌, ◌-◌, ◌≡◌, ap, Bool, true, false, Option, none, some, List, [], ◌∷◌, ◌==◌,
  nat_eq, eq_iff, if◌then◌else◌, Bool-cases, Option-cases, inl, inr, arith,
}
use imagesilo.Common.Text.{Text, codes}
use imagesilo.Common.Collections.{has, lookup, IsDistinct, lookup-insert, lookup-remove}
use imagesilo.Modal.{
  Lock, Desk, update_at, counted, lock_element, lock_all, unlock_element, unlock_all,
}

-- An element's entry in `backgroundLocks` and its two attributes.
pub record Look : Type 0 where
  pub lock : Option Lock
  pub inert : Bool
  pub aria_hidden : Option Text

abbrev pub look : ℕ → Desk → Look
look element desk = record {
  lock = lookup element desk.locks;
  inert = desk.inert element;
  aria_hidden = desk.aria_hidden element;
}

-- How an element looks under `n` dialogs, if it looks as told under none.
abbrev pub looks_under : ℕ → Bool → Option Text → Look
looks_under zero inert aria_hidden = record {
  lock = none;
  inert = inert;
  aria_hidden = aria_hidden;
}
looks_under (suc n) inert aria_hidden = record {
  lock = some (record { count = suc n; inert = inert; aria_hidden = aria_hidden });
  inert = true;
  aria_hidden = some (codes "true");
}

ends_at {ℓ} : {A : Type ℓ} (i : ℕ) (a : A) (f : ℕ → A) → update_at i a f i ≡ a
ends_at i a f = ground arith

module _ (element : ℕ) (inert : Bool) (aria_hidden : Option Text) where
  lock_element_same :
      (n : ℕ) (desk : Desk)
      → look element desk ≡ looks_under n inert aria_hidden
      → look element (lock_element element desk) ≡ looks_under (suc n) inert aria_hidden
  unfolding lock_element
  lock_element_same zero desk h = ground (
    arith,
    ap Look.lock h,
    ap Look.inert h,
    ap Look.aria_hidden h,
    lookup-insert element element (counted element desk) desk.locks,
  )
  lock_element_same (suc n) desk h = ground (
    arith,
    ap Look.lock h,
    ap Look.inert h,
    ap Look.aria_hidden h,
    lookup-insert element element (counted element desk) desk.locks,
  )

  unlock_element_same :
      (n : ℕ) (desk : Desk)
      → look element desk ≡ looks_under (suc n) inert aria_hidden
      → look element (unlock_element element desk) ≡ looks_under n inert aria_hidden
  unfolding unlock_element
  unlock_element_same zero desk h = ground (
    arith,
    ap Look.lock h,
    ap Look.inert h,
    ap Look.aria_hidden h,
    lookup-remove element element desk.locks,
  )
  unlock_element_same (suc n) desk h = ground (
    arith,
    ap Look.lock h,
    ap Look.inert h,
    ap Look.aria_hidden h,
    lookup-insert element element
        (record { count = suc n; inert = inert; aria_hidden = aria_hidden }) desk.locks,
  )

lock_element_other :
    (i element : ℕ) (desk : Desk)
    → (i == element) ≡ false
    → look element (lock_element i desk) ≡ look element desk
unfolding lock_element
lock_element_other i element desk h =
    ground (arith, h, lookup-insert i element (counted i desk) desk.locks)

unlock_element_other :
    (i element : ℕ) (desk : Desk)
    → (i == element) ≡ false
    → look element (unlock_element i desk) ≡ look element desk
unfolding unlock_element
unlock_element_other i element desk h = elim (Option-cases (lookup i desk.locks)) [
  | inl absent ↦ ground (arith, absent)
  | inr (lock, found) ↦ ground (
    arith,
    h,
    found,
    lookup-insert i element (record lock { count = lock.count - 1 }) desk.locks,
    lookup-remove i element desk.locks,
  )
]

-- Locking a background without repetitions adds one dialog over each of its elements, and leaves
-- the others as they are.
pub lock_all_lem :
    (element : ℕ) (inert : Bool) (aria_hidden : Option Text) (n : ℕ) (elements : List ℕ)
    → IsDistinct elements
    → (desk : Desk) → look element desk ≡ looks_under n inert aria_hidden
    → look element (lock_all elements desk)
      ≡ looks_under ((if has element elements then 1 else 0) + n) inert aria_hidden
unfolding lock_all has
lock_all_lem element inert aria_hidden n [] d desk h = ground (arith, h)
lock_all_lem element inert aria_hidden n (x ∷ xs) d desk h = elim (Bool-cases (x == element)) [
  | inl same ↦ ground (
    arith,
    d.0,
    eq_iff x element,
    lock_element_same element inert aria_hidden n desk h,
    lock_all_lem element inert aria_hidden (suc n) xs d.1 (lock_element element desk),
  )
  | inr other ↦ ground (
    arith,
    other,
    lock_element_other x element desk other,
    lock_all_lem element inert aria_hidden n xs d.1 (lock_element x desk),
  )
]

-- Unlocking it takes one dialog off each of its elements.
pub unlock_all_lem :
    (element : ℕ) (inert : Bool) (aria_hidden : Option Text) (n : ℕ) (elements : List ℕ)
    → IsDistinct elements
    → (desk : Desk)
    → look element desk
      ≡ looks_under ((if has element elements then 1 else 0) + n) inert aria_hidden
    → look element (unlock_all elements desk) ≡ looks_under n inert aria_hidden
unfolding unlock_all has
unlock_all_lem element inert aria_hidden n [] d desk h = ground (arith, h)
unlock_all_lem element inert aria_hidden n (x ∷ xs) d desk h = elim (Bool-cases (x == element)) [
  | inl same ↦ ground (
    arith,
    d.0,
    eq_iff x element,
    unlock_element_same element inert aria_hidden n desk,
    unlock_all_lem element inert aria_hidden n xs d.1 (unlock_element element desk),
  )
  | inr other ↦ ground (
    arith,
    other,
    unlock_element_other x element desk other,
    unlock_all_lem element inert aria_hidden n xs d.1 (unlock_element x desk),
  )
]
