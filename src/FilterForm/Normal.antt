-- ===== src/FilterForm/Normal.antt =====
-- What the filters of a URL are once they are normalized.
use imagesilo.Common.{
  ◌≡◌, refl, ap, ◌∙◌, false, none, some, List, [], ◌∷◌, ◌==◌, nat_eq, list_eq, eq_iff,
  if◌then◌else◌, arith, All, length, filter, count, is_some, not,
}
use imagesilo.Common.Text.{Text, trim, trim_start, trim_end, trim_idem}
use imagesilo.Common.Collections.{has, lookup, lookup-insert, IsDistinct}
use imagesilo.FilterForm.{Parameters, value_of, put, put_all, fresh, values_of, normalized}

abbrev pub names_of : Parameters → List Text
names_of [] = []
names_of ((name, _) ∷ entries) = name ∷ names_of entries

-- An entry that can be read back: a name without a value so far, and a trimmed value.
abbrev pub IsNew : Parameters → Text × Text → Type 0
IsNew parameters (name, value) = (lookup name parameters ≡ none) × (trim value ≡ value)

abbrev Found : Parameters → Text × Text → Type 0
Found parameters (name, value) = value_of name parameters ≡ value

pub lookup-put :
    (j name value : Text) (parameters : Parameters)
    → lookup j (put name value parameters) ≡ (
        if value == []
        then lookup j parameters
        else if name == j
        then some value
        else lookup j parameters)
unfolding put
lookup-put j name value parameters = ground (arith, lookup-insert name j value parameters)

lookup-put_all :
    (j : Text) (entries parameters : Parameters)
    → has j (names_of entries) ≡ false
    → lookup j (put_all entries parameters) ≡ lookup j parameters
unfolding put_all has
lookup-put_all j [] parameters absent = refl
lookup-put_all j ((name, value) ∷ entries) parameters absent = ground (
  arith,
  lookup-put_all j entries (put name value parameters),
  lookup-put j name value parameters,
  absent,
)

value_of_found :
    (name value : Text) (parameters : Parameters)
    → lookup name parameters ≡ (if value == [] then none else some value)
    → trim value ≡ value
    → value_of name parameters ≡ value
unfolding value_of
value_of_found name [] parameters found trimmed = rw (found, value_of) refl
value_of_found name (c ∷ s) parameters found trimmed = rw (found, value_of) trimmed

All-IsNew-put :
    (name value : Text) (entries parameters : Parameters)
    → has name (names_of entries) ≡ false
    → All (IsNew parameters) entries
    → All (IsNew (put name value parameters)) entries
unfolding has
All-IsNew-put name value [] parameters absent h = tt
All-IsNew-put name value ((j, w) ∷ entries) parameters absent h = (
  (
    ground (arith, lookup-put j name value parameters, absent, h.0, eq_iff name j, eq_iff j name),
    h.0.1,
  ),
  All-IsNew-put name value entries parameters (ground (arith, absent)) h.1,
)

abbrev Listed : Parameters → Text × Text → Type 0
Listed parameters (name, value) =
    lookup name parameters ≡ (if value == [] then none else some value)

put_all-Listed :
    (entries parameters : Parameters)
    → IsDistinct (names_of entries)
    → All (IsNew parameters) entries
    → All (Listed (put_all entries parameters)) entries
unfolding put_all
put_all-Listed [] parameters d h = tt
put_all-Listed ((name, value) ∷ entries) parameters d h = (
  lookup-put_all name entries (put name value parameters) d.0
      ∙ lookup-put name name value parameters
      ∙ ground (arith, h.0, eq_iff name name),
  put_all-Listed entries (put name value parameters) d.1
      (All-IsNew-put name value entries parameters d.0 h.1),
)

Found-Listed :
    (entries parameters start : Parameters)
    → All (IsNew start) entries
    → All (Listed parameters) entries
    → All (Found parameters) entries
Found-Listed [] parameters start h k = tt
Found-Listed ((name, value) ∷ entries) parameters start h k =
    (value_of_found name value parameters k.0 h.0.1, Found-Listed entries parameters start h.1 k.1)

pub put_all-Found :
    (entries parameters : Parameters)
    → IsDistinct (names_of entries)
    → All (IsNew parameters) entries
    → All (Found (put_all entries parameters)) entries
put_all-Found entries parameters d h =
    Found-Listed entries (put_all entries parameters) parameters h
      (put_all-Listed entries parameters d h)

values_of-Found :
    (entries parameters : Parameters)
    → All (Found parameters) entries
    → values_of (names_of entries) parameters ≡ entries
values_of-Found [] parameters h = refl
values_of-Found ((name, value) ∷ entries) parameters h =
    rw (h.0, values_of-Found entries parameters h.1) refl

-- Normalizing keeps parameters that were put together from trimmed values under the page's names.
pub normalized-put_all :
    (names : List Text) (entries : Parameters)
    → names ≡ names_of entries
    → IsDistinct names
    → All (IsNew fresh) entries
    → normalized names (put_all entries fresh) ≡ put_all entries fresh
unfolding normalized
normalized-put_all names entries same d h =
    let found = put_all-Found entries fresh (rw same at d) h in
    ap (λ (some_names : List Text). put_all (values_of some_names (put_all entries fresh)) fresh)
      same
    ∙ ap (λ (some_entries : Parameters). put_all some_entries fresh)
        (values_of-Found entries (put_all entries fresh) found)

value_of_trimmed :
    (name : Text) (source : Parameters) → trim (value_of name source) ≡ value_of name source
unfolding value_of
value_of_trimmed name source =
    elim (lookup name source)
      as (λ found.
        trim (elim found [ none ↦ [] | some value ↦ trim value ])
        ≡ (elim found [ none ↦ [] | some value ↦ trim value ])) [
          | none ↦ unfold trim trim_start trim_end in refl
          | some value ↦ trim_idem value
        ]

names_of-values_of :
    (names : List Text) (source : Parameters) → names ≡ names_of (values_of names source)
names_of-values_of [] source = refl
names_of-values_of (name ∷ names) source =
    ap (λ rest. name ∷ rest) (names_of-values_of names source)

IsNew-values_of :
    (names : List Text) (source : Parameters)
    → All (λ name. lookup name fresh ≡ none) names
    → All (IsNew fresh) (values_of names source)
IsNew-values_of [] source h = tt
IsNew-values_of (name ∷ names) source h =
    ((h.0, value_of_trimmed name source), IsNew-values_of names source h.1)

pub normalized_idem :
    (names : List Text) (source : Parameters)
    → IsDistinct names
    → All (λ name. lookup name fresh ≡ none) names
    → normalized names (normalized names source) ≡ normalized names source
unfolding normalized
normalized_idem names source d h =
    normalized-put_all names (values_of names source) (names_of-values_of names source) d
      (IsNew-values_of names source h)

-- How many names have a value is how many have one that is not blank in the source.
pub count-normalized :
    (names : List Text) (source : Parameters)
    → IsDistinct names
    → All (λ name. lookup name fresh ≡ none) names
    → length (filter (λ name. is_some (lookup name (normalized names source))) names)
      ≡ count (λ name. not (value_of name source == [])) names
unfolding normalized
count-normalized names source d h = counted (put_all (values_of names source) fresh) names (
    put_all-Listed (values_of names source) fresh (rw (names_of-values_of names source) at d)
      (IsNew-values_of names source h))
  where
    counted :
        (parameters : Parameters) (some_names : List Text)
        → All (Listed parameters) (values_of some_names source)
        → length (filter (λ name. is_some (lookup name parameters)) some_names)
          ≡ count (λ name. not (value_of name source == [])) some_names
    counted parameters [] k = refl
    counted parameters (name ∷ more) k = ground (arith, k.0, counted parameters more k.1)
