-- ===== src/Prelude/Lists.antt =====
-- Lists measured and indexed by native numbers, under the library's names, and the predicate on
-- lists of file ids that the code calls a run: strictly increasing numbers.
use Prim.Native.Nat.{ℕ, zero, suc, ◌+◌, ◌≤◌, ◌<◌}
use mathlib.Core.Path.{◌≡◌, refl}
use mathlib.Core.List.{List, [], ◌∷◌, ◌++◌}
use mathlib.Core.Bool.{Bool, false, ◌||◌}
use mathlib.Core.Option.{Option, none, some}
use native.Mathlib.Omega.{arith}
use ursadb.Prelude.Tests.{◌==◌}

module _ {ℓ} {A : Type ℓ} where
  abbrev pub length : List A → ℕ
  length [] = 0
  length (x ∷ xs) = suc (length xs)

  abbrev pub get_elem? : List A → ℕ → Option A
  get_elem? [] i = none
  get_elem? (x ∷ xs) zero = some x
  get_elem? (x ∷ xs) (suc i) = get_elem? xs i

  abbrev pub take : ℕ → List A → List A
  take zero xs = []
  take (suc n) [] = []
  take (suc n) (x ∷ xs) = x ∷ take n xs

  abbrev pub drop : ℕ → List A → List A
  drop zero xs = xs
  drop (suc n) [] = []
  drop (suc n) (x ∷ xs) = drop n xs

  abbrev pub All {κ} : (A → Type κ) → List A → Type κ
  All P [] = Unit {κ}
  All P (x ∷ xs) = P x × All P xs

  pub length-append : (xs ys : List A) → length (xs ++ ys) ≡ length xs + length ys
  length-append [] ys = omega arith
  length-append (x ∷ xs) ys = omega (arith, length-append xs ys)

-- Membership of a number, as a test.
abbrev pub elem : ℕ → List ℕ → Bool
elem a [] = false
elem a (x ∷ xs) = (a == x) || elem a xs

-- Strictly increasing, and every element at least `lo`.
abbrev pub IsRunFrom : ℕ → List ℕ → Type 0
IsRunFrom lo [] = Unit
IsRunFrom lo (x ∷ xs) = (lo ≤ x) × IsRunFrom (suc x) xs

-- A run is a sorted list of file ids, with no repetition.
abbrev pub IsRun : List ℕ → Type 0
IsRun xs = IsRunFrom 0 xs

pub IsRunFrom-weaken : (lo hi : ℕ) (xs : List ℕ) → lo ≤ hi → IsRunFrom hi xs → IsRunFrom lo xs
IsRunFrom-weaken lo hi [] h r = tt
IsRunFrom-weaken lo hi (x ∷ xs) h r = (omega arith, r.1)

-- Nothing below the bound is in the run.
pub elem_below : (a lo : ℕ) (xs : List ℕ) → a < lo → IsRunFrom lo xs → elem a xs ≡ false
elem_below a lo [] h r = refl
elem_below a lo (x ∷ xs) h r = ground (arith, elem_below a (suc x) xs (omega arith) r.1)
