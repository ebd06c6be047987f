-- ===== src/Common/Text.antt =====
-- JavaScript strings as lists of code units, with the string methods that the client calls.
use Prim.Native.Char.{code}
use Prim.Native.String.{String}
use imagesilo.Common.Tests.{if◌then◌else◌, leb, Bool-cases}
use imagesilo.Common.Lists.{length}
use imagesilo.Common.Equality.{◌==◌, nat_eq}
use Prim.Native.Nat.{ℕ, zero, suc, ◌+◌, ◌-◌, ◌/◌, ◌%◌}
use mathlib.Core.Path.{◌≡◌, refl}
use mathlib.Core.Logic.{inl, inr}
use mathlib.Core.Bool.{Bool, true, false, ◌&&◌, ◌||◌}
use mathlib.Core.List.{List, [], ◌∷◌}
use native.Mathlib.Omega.{arith}

abbrev pub Text : Type 0
Text = List ℕ

-- A literal of the source (all of them are ASCII).
abbrev pub codes : String → Text
codes String.[] = []
codes (String.◌∷◌ c s) = code c ∷ codes s

-- WhiteSpace and LineTerminator of ECMAScript, which `trim` removes.
abbrev pub is_space : ℕ → Bool
is_space c =
    (leb 9 c && leb c 13)
    || c == 32
    || c == 160
    || c == 0x1680
    || (leb 0x2000 c && leb c 0x200a)
    || c == 0x2028
    || c == 0x2029
    || c == 0x202f
    || c == 0x205f
    || c == 0x3000
    || c == 0xfeff

unfoldable pub trim_start : Text → Text
trim_start [] = []
trim_start (c ∷ s) = let rest = trim_start s in if is_space c then rest else c ∷ s

unfoldable pub trim_end : Text → Text
trim_end [] = []
trim_end (c ∷ s) =
    let rest = trim_end s in
    elim rest [ [] ↦ if is_space c then [] else c ∷ [] | d ∷ kept ↦ c ∷ d ∷ kept ]

unfoldable pub trim : Text → Text
unfolding trim_start trim_end
trim s = trim_end (trim_start s)

unfoldable pub starts_with : Text → Text → Bool
starts_with s [] = true
starts_with [] (_ ∷ _) = false
starts_with (c ∷ s) (p ∷ ps) = c == p && starts_with s ps

-- `toUpperCase` on ASCII letters.
unfoldable pub upper : ℕ → ℕ
upper c = if leb 97 c && leb c 122 then c - 32 else c

unfoldable pub lower : ℕ → ℕ
lower c = if leb 65 c && leb c 90 then c + 32 else c

-- `String(n)` for an integer: decimal digits, most significant first.
unfoldable pub digits : ℕ → ℕ → Text → Text
digits zero n acc = acc
digits (suc fuel) n acc =
    let shown = (48 + n % 10) ∷ acc in
    let more = digits fuel (n / 10) shown in if n / 10 == 0 then shown else more

-- A number of at most `n + 1` digits: `n` itself is fuel enough.
unfoldable pub decimal : ℕ → Text
unfolding digits
decimal n = digits (suc n) n []

unfoldable pub pad_start : ℕ → ℕ → Text → Text
pad_start zero c s = s
pad_start (suc n) c s = if leb (suc n) (length s) then s else c ∷ pad_start n c s

decimal_2026 : decimal 2026 ≡ codes "2026"
unfolding decimal
decimal_2026 = refl

pad_7 : pad_start 2 48 (decimal 7) ≡ codes "07"
unfolding decimal pad_start
pad_7 = refl

trim_both : trim (codes "  a b ") ≡ codes "a b"
unfolding trim
trim_both = refl

trim_end_idem : (s : Text) → trim_end (trim_end s) ≡ trim_end s
unfolding trim_end
trim_end_idem [] = refl
trim_end_idem (c ∷ s) = ground (arith, trim_end_idem s)

trim_end_kept : (c : ℕ) (s : Text) → is_space c ≡ false → (t : Text) × (trim_end (c ∷ s) ≡ c ∷ t)
unfolding trim_end
trim_end_kept c s kept =
    elim (trim_end s)
      as (λ rest.
        (t : Text) × ((elim rest [
          | [] ↦ if is_space c then [] else c ∷ []
          | d ∷ more ↦ c ∷ d ∷ more
        ])
          ≡ c ∷ t)) [ [] ↦ ([], rw kept refl) | d ∷ more ↦ (d ∷ more, refl) ]

trim_start-trim_end : (s : Text) → trim_start (trim_end (trim_start s)) ≡ trim_end (trim_start s)
unfolding trim_start trim_end
trim_start-trim_end [] = refl
trim_start-trim_end (c ∷ s) = elim (Bool-cases (is_space c)) [
  | inl space ↦ rw space (trim_start-trim_end s)
  | inr kept ↦ let (t, e) = trim_end_kept c s kept in rw (kept, e, kept) refl
]

-- Nothing is left to trim.
pub trim_idem : (s : Text) → trim (trim s) ≡ trim s
unfolding trim
trim_idem s = rw (trim_start-trim_end s) (trim_end_idem (trim_start s))
