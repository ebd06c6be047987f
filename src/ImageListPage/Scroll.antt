-- ===== src/ImageListPage/Scroll.antt =====
-- `scrollPositions`: where the list stood when an image of it was opened, for 20 visits at most.
use imagesilo.Common.{
  ℕ, ◌≤◌, ◌≡◌, ◌⊎◌, inl, inr, refl, ◌∙◌, Bool, not, ◌&&◌, none, some, List, [], ◌∷◌, ◌++◌, length,
  length-append, ltb, ◌==◌, nat_eq, list_eq, eq_iff, eq_refl, ltb→lt, if◌then◌else◌, arith,
  Bool-cases,
}
use imagesilo.Common.Text.{Text}
use imagesilo.Common.Collections.{lookup, remove, insert, lookup-remove, length-remove}

pub record Position : Type 0 where
  pub top : ℕ
  pub count : ℕ

abbrev pub Positions : Type 0
Positions = List (Text × Position)

-- The `while` loop: the first key is deleted as long as there are more than 20.
unfoldable pub evict : Positions → Positions
evict [] = []
evict (entry ∷ positions) =
    let rest = evict positions in
    if ltb 20 (length (entry ∷ positions)) then rest else entry ∷ positions

unfoldable pub remember_scroll : Text → Position → Positions → Positions
unfolding evict remove insert
remember_scroll key position positions = evict (insert key position (remove key positions))

pub data Restore : Type 0 where
  nothing : Restore
  fetch_next : Restore
  scroll_to : ℕ → Restore

-- The query for the list, and how many images it has so far.
pub record Loaded : Type 0 where
  pub is_success : Bool
  pub has_next : Bool
  pub is_fetching : Bool
  pub is_error : Bool
  pub images : ℕ

-- The layout effect that scrolls back: what it does, and the positions after it.
unfoldable pub restore_scroll : Text → Loaded → Positions → Restore × Positions
unfolding lookup remove
restore_scroll key loaded positions = elim (lookup key positions) [
  | none ↦ (nothing, positions)
  | some target ↦
      if not loaded.is_success
      then (nothing, positions)
      else if ltb loaded.images target.count && loaded.has_next && not loaded.is_error
      then ((if loaded.is_fetching then nothing else fetch_next), positions)
      else (scroll_to target.top, remove key positions)
]

insert-remove :
    (key : Text) (position : Position) (positions : Positions)
    → insert key position (remove key positions) ≡ remove key positions ++ (key, position) ∷ []
unfolding insert remove
insert-remove key position [] = refl
insert-remove key position ((k, p) ∷ positions) = elim (Bool-cases (k == key)) [
  | inl same ↦ rw same (insert-remove key position positions)
  | inr other ↦ rw (other, insert-remove key position positions) (ground (arith, other))
]

evict-length : (positions : Positions) → length (evict positions) ≤ 20
unfolding evict
evict-length [] = omega arith
evict-length (entry ∷ positions) = ground (arith, evict-length positions)

evict_small : (positions : Positions) → length positions ≤ 20 → evict positions ≡ positions
unfolding evict
evict_small [] h = refl
evict_small (entry ∷ positions) h = ground (arith, h)

lookup-snoc :
    (key j : Text) (position : Position) (positions : Positions)
    → lookup j (positions ++ (key, position) ∷ []) ≡ (elim (lookup j positions) [
      | none ↦ if key == j then some position else none
      | some p ↦ some p
    ])
unfolding lookup
lookup-snoc key j position [] = refl
lookup-snoc key j position ((k, p) ∷ positions) =
    ground (arith, lookup-snoc key j position positions)

lookup-evict_snoc :
    (key : Text) (position : Position) (positions : Positions)
    → lookup key positions ≡ none
    → lookup key (evict (positions ++ (key, position) ∷ [])) ≡ some position
unfolding lookup evict
lookup-evict_snoc key position [] h = ground (arith, eq_refl key)
lookup-evict_snoc key position ((k, p) ∷ positions) h = ground (
  arith,
  h,
  lookup-snoc key key position positions,
  lookup-evict_snoc key position positions,
  eq_refl key,
)

-- Opening an image remembers its list's position; at most 20 positions are kept, and as long as
-- there are fewer before, the other lists' positions stay as they are.
pub remember_scroll_lem :
    (key j : Text) (position : Position) (positions : Positions)
    → (length (remember_scroll key position positions) ≤ 20)
      × (lookup key (remember_scroll key position positions) ≡ some position)
      × ((lookup j (remember_scroll key position positions)
            ≡ (if key == j then some position else lookup j positions))
          ⊎ (20 ≤ length positions))
unfolding remember_scroll
remember_scroll_lem key j position positions =
    let placed = insert-remove key position positions in
    (
      evict-length (insert key position (remove key positions)),
      rw placed (
          lookup-evict_snoc key position (remove key positions)
            (lookup-remove key key positions ∙ rw (eq_refl key) refl)),
      elim (Bool-cases (ltb (length positions) 20)) [
        | inl fewer ↦ inl (
            rw
              (
                placed,
                evict_small (remove key positions ++ (key, position) ∷ []) (
                    omega (
                      arith,
                      length-append (remove key positions) ((key, position) ∷ []),
                      length-remove key positions,
                      ltb→lt (length positions) 20 fewer,
                    )),
                lookup-snoc key j position (remove key positions),
                lookup-remove key j positions,
              )
              (ground (arith, eq_iff key j)))
        | inr full ↦ inr (ground (arith, full))
      ],
    )
