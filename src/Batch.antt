-- ===== src/Batch.antt =====
-- The lists of identifiers that the service takes in one request, from a selection that is a `Set`.
use imagesilo.Common.{
  ◌+◌, ◌≤◌, ◌<◌, refl, List, [], ◌∷◌, length, length-append, nat_eq, list_eq, arith,
}
use imagesilo.Common.Text.{Text}
use imagesilo.Common.Collections.{
  has, add, delete, IsDistinct, add-IsDistinct, delete-IsDistinct, length-delete,
}

-- At most 100, none twice.
pub record IsBatch (ids : List Text) : Type 0 where
  pub distinct : IsDistinct ids
  pub within : length ids ≤ 100

pub empty-IsBatch : IsBatch []
empty-IsBatch = record { distinct = tt; within = omega arith }

pub single-IsBatch : (id : Text) → IsBatch (id ∷ [])
unfolding has
single-IsBatch id = record { distinct = (refl, tt); within = omega arith }

pub length-add : (a : Text) (xs : List Text) → length (add a xs) ≤ length xs + 1
unfolding add
length-add a xs = ground (arith, length-append xs (a ∷ []))

pub delete-IsBatch : (id : Text) (ids : List Text) → IsBatch ids → IsBatch (delete id ids)
delete-IsBatch id ids h = record {
  distinct = delete-IsDistinct id ids h.distinct;
  within = omega (arith, h.within, length-delete id ids);
}

pub add-IsBatch :
    (id : Text) (ids : List Text) → IsBatch ids → length ids < 100 → IsBatch (add id ids)
add-IsBatch id ids h room = record {
  distinct = add-IsDistinct id ids h.distinct;
  within = omega (arith, room, length-add id ids);
}
