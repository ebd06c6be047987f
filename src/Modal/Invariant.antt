-- ===== src/Modal/Invariant.antt =====
-- What holds while dialogs are open, and lemmas on the stack.
use imagesilo.Common.{
  ℕ, ◌≡◌, refl, ap, ◌∙◌, Bool, true, false, Option, none, some, List, [], ◌∷◌, ◌++◌, map, count,
  length, nat_eq, eq_iff, if◌then◌else◌, Option-cases, inl, inr, arith, All, ◌&&◌, ltb,
}
use imagesilo.Common.Text.{Text, codes}
use imagesilo.Common.Collections.{has, IsDistinct, has-append}
use imagesilo.Modal.{
  Desk, Modal, lock_all, unlock_all, lock_element, unlock_element, mount, unmount, top, is_top,
  remove_last, disown,
}
use imagesilo.Modal.Locks.{look, looks_under}

-- A document without dialogs.
pub record IsClean (desk : Desk) : Type 0 where
  pub no_dialog : desk.stack ≡ []
  pub no_lock : desk.locks ≡ []
  pub no_owner : desk.owner ≡ none

abbrev pub ids : List Modal → List ℕ
ids modals = map (λ (modal : Modal). modal.id) modals

-- The dialogs that are mounted, from the first to the last, and the document. A dialog's background
-- is a list of the body's children, so no element is in it twice; any dialog may close.
pub data Reaches (is_connected : ℕ → Bool) (start : Desk) : List Modal → Desk → Type 0 where
  begun : IsClean start → Reaches is_connected start [] start
  opened :
      {modals : List Modal} {desk : Desk} (modal : Modal)
      → Reaches is_connected start modals desk
      → IsDistinct modal.background
      → has modal.id (ids modals) ≡ false
      → Reaches is_connected start (modals ++ modal ∷ []) (mount modal desk)
  closed :
      {desk : Desk} (before : List Modal) (modal : Modal) (after : List Modal)
      → Reaches is_connected start (before ++ modal ∷ after) desk
      → Reaches is_connected start (before ++ after) (unmount is_connected modal desk)
  focused :
      {modals : List Modal} {desk : Desk} (focus : Option ℕ)
      → Reaches is_connected start modals desk
      → Reaches is_connected start modals (record desk { focus = focus })

abbrev pub over : ℕ → Modal → Bool
over element modal = has element modal.background

-- The overflow of the page while the stack is as given: its own, or hidden and kept.
abbrev pub Kept : Text → List Modal → Desk → Type 0
Kept overflow [] desk = desk.overflow ≡ overflow
Kept overflow (_ ∷ _) desk = (desk.overflow ≡ codes "hidden") × (desk.original_overflow ≡ overflow)

pub record Inv (start : Desk) (modals : List Modal) (desk : Desk) : Type 0 where
  pub looks :
      (element : ℕ)
      → look element desk
        ≡ looks_under
            (count (over element) modals)
            (start.inert element)
            (start.aria_hidden element)
  pub on_stack : desk.stack ≡ ids modals
  pub distinct : IsDistinct (ids modals)
  pub backgrounds : All (λ modal. IsDistinct (Modal.background modal)) modals
  pub kept : Kept start.overflow modals desk
  pub owned : desk.owner ≡ top (ids modals)

-- The parts of the document that locking leaves alone.
pub record Rest : Type 0 where
  pub stack : List ℕ
  pub original_overflow : Text
  pub overflow : Text
  pub owner : Option ℕ

abbrev pub rest : Desk → Rest
rest desk = record {
  stack = desk.stack;
  original_overflow = desk.original_overflow;
  overflow = desk.overflow;
  owner = desk.owner;
}

pub lock_all-rest : (elements : List ℕ) (desk : Desk) → rest (lock_all elements desk) ≡ rest desk
unfolding lock_all lock_element
lock_all-rest [] desk = refl
lock_all-rest (x ∷ xs) desk = lock_all-rest xs (lock_element x desk)

pub unlock_element-rest :
    (element : ℕ) (desk : Desk) → rest (unlock_element element desk) ≡ rest desk
unfolding unlock_element
unlock_element-rest element desk = ground arith

pub unlock_all-rest :
    (elements : List ℕ) (desk : Desk) → rest (unlock_all elements desk) ≡ rest desk
unfolding unlock_all
unlock_all-rest [] desk = refl
unlock_all-rest (x ∷ xs) desk =
    unlock_all-rest xs (unlock_element x desk) ∙ unlock_element-rest x desk

pub top-append : (xs : List ℕ) (y : ℕ) (ys : List ℕ) → top (xs ++ y ∷ ys) ≡ top (y ∷ ys)
unfolding top
top-append [] y ys = refl
top-append (x ∷ []) y ys = refl
top-append (x ∷ z ∷ xs) y ys = top-append (z ∷ xs) y ys

pub top_in : (id : ℕ) (ys : List ℕ) → top ys ≡ some id → has id ys ≡ true
unfolding top has
top_in id [] e = cc
top_in id (y ∷ []) e = ground (arith, e, eq_iff y id)
top_in id (y ∷ z ∷ ys) e = ground (arith, top_in id (z ∷ ys) e)

pub remove_last-append :
    (a : ℕ) (xs ys : List ℕ) → has a ys ≡ false → remove_last a (xs ++ a ∷ ys) ≡ xs ++ ys
unfolding remove_last has
remove_last-append a [] ys h = ground (arith, h, eq_iff a a)
remove_last-append a (x ∷ xs) ys h =
    ground (arith, eq_iff a a, has-append a xs (a ∷ ys), remove_last-append a xs ys h)

pub ids-append : (xs ys : List Modal) → ids (xs ++ ys) ≡ ids xs ++ ids ys
ids-append [] ys = refl
ids-append (x ∷ xs) ys = ap (x.id ∷◌) (ids-append xs ys)

pub IsDistinct-middle :
    (a : ℕ) (xs ys : List ℕ)
    → IsDistinct (xs ++ a ∷ ys)
    → (has a xs ≡ false) × (has a ys ≡ false) × IsDistinct (xs ++ ys)
unfolding has
IsDistinct-middle a [] ys d = (refl, d.0, d.1)
IsDistinct-middle a (x ∷ xs) ys d =
    let rest = IsDistinct-middle a xs ys d.1 in
    (
      ground (arith, d.0, has-append x xs (a ∷ ys), rest.0, eq_iff a x, eq_iff x a),
      rest.1,
      (ground (arith, d.0, has-append x xs (a ∷ ys), has-append x xs ys), rest.2),
    )

pub IsDistinct-snoc :
    (a : ℕ) (xs : List ℕ) → IsDistinct xs → has a xs ≡ false → IsDistinct (xs ++ a ∷ [])
unfolding has
IsDistinct-snoc a [] d h = (refl, tt)
IsDistinct-snoc a (x ∷ xs) d h =
    ground (arith, h, d, IsDistinct-snoc a xs d.1, has-append x xs (a ∷ []), eq_iff a x, eq_iff x a)

-- The attribute goes to the dialog below, if the one on top has closed; else it stays.
pub leave_owner :
    (id : ℕ) (xs ys : List ℕ)
    → has id ys ≡ false
    → (if is_top id (xs ++ id ∷ ys) && ltb 0 (length (xs ++ ys))
        then top (xs ++ ys)
        else disown id (top (xs ++ id ∷ ys)))
      ≡ top (xs ++ ys)
unfolding top
leave_owner id [] [] h = ground (arith, eq_iff id id)
leave_owner id (x ∷ xs) [] h = ground (arith, top-append (x ∷ xs) id [], eq_iff id id)
leave_owner id xs (y ∷ ys) h =
    rw (top-append xs id (y ∷ ys), top-append xs y ys)
      (elim (Option-cases (top (y ∷ ys))) [
        | inl absent ↦ rw absent (ground arith)
        | inr (t, found) ↦ rw found (ground (arith, h, found, top_in t (y ∷ ys) found, eq_iff t id))
      ])
