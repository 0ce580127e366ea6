-- ===== src/SortedRun/Sets.antt =====
-- `std::set_union` and `std::set_intersection`, which `SortedRun` calls on sorted sequences.
use ursadb.Prelude.{
  ℕ, suc, ◌≡◌, refl, ◌&&◌, ◌||◌, List, [], ◌∷◌, arith, All, IsRunFrom, IsRunFrom-weaken, elem,
  elem_below,
}
use Prim.Native.Nat.{compare, Ordering}

-- The smaller head goes first; an element of both goes once.
unfoldable pub set_union : List ℕ → List ℕ → List ℕ
set_union [] ys = ys
set_union (x ∷ xs) [] = x ∷ xs
set_union (x ∷ xs) (y ∷ ys) = elim (compare x y) [
  | Ordering.lt ↦ x ∷ set_union xs (y ∷ ys)
  | Ordering.gt ↦ y ∷ set_union (x ∷ xs) ys
  | Ordering.eq ↦ x ∷ set_union xs ys
]

unfoldable pub set_intersection : List ℕ → List ℕ → List ℕ
set_intersection [] ys = []
set_intersection (x ∷ xs) [] = []
set_intersection (x ∷ xs) (y ∷ ys) = elim (compare x y) [
  | Ordering.lt ↦ set_intersection xs (y ∷ ys)
  | Ordering.gt ↦ set_intersection (x ∷ xs) ys
  | Ordering.eq ↦ x ∷ set_intersection xs ys
]

pub elem-set_union : (a : ℕ) (xs ys : List ℕ) → elem a (set_union xs ys) ≡ (elem a xs || elem a ys)
unfolding set_union
elem-set_union a [] ys = refl
elem-set_union a (x ∷ xs) [] = ground arith
elem-set_union a (x ∷ xs) (y ∷ ys) =
    ground
      (arith, elem-set_union a xs (y ∷ ys), elem-set_union a (x ∷ xs) ys, elem-set_union a xs ys)

pub set_union-IsRunFrom :
    (lo : ℕ) (xs ys : List ℕ) → IsRunFrom lo xs → IsRunFrom lo ys → IsRunFrom lo (set_union xs ys)
unfolding set_union
set_union-IsRunFrom lo [] ys r s = s
set_union-IsRunFrom lo (x ∷ xs) [] r s = r
set_union-IsRunFrom lo (x ∷ xs) (y ∷ ys) r s = ground (
  arith,
  set_union-IsRunFrom (suc x) xs (y ∷ ys),
  set_union-IsRunFrom (suc y) (x ∷ xs) ys,
  set_union-IsRunFrom (suc x) xs ys,
)

pub elem-set_intersection :
    (a lo : ℕ) (xs ys : List ℕ)
    → IsRunFrom lo xs
    → IsRunFrom lo ys
    → elem a (set_intersection xs ys) ≡ (elem a xs && elem a ys)
unfolding set_intersection
elem-set_intersection a lo [] ys r s = refl
elem-set_intersection a lo (x ∷ xs) [] r s = ground arith
elem-set_intersection a lo (x ∷ xs) (y ∷ ys) r s = ground (
  arith,
  elem-set_intersection a lo xs (y ∷ ys),
  elem-set_intersection a lo (x ∷ xs) ys,
  elem-set_intersection a (suc x) xs ys,
  IsRunFrom-weaken lo (suc x) xs,
  IsRunFrom-weaken lo (suc y) ys,
  elem_below a (suc x) xs,
  elem_below a (suc y) ys,
)

pub set_intersection-IsRunFrom :
    (lo : ℕ) (xs ys : List ℕ)
    → IsRunFrom lo xs
    → IsRunFrom lo ys
    → IsRunFrom lo (set_intersection xs ys)
unfolding set_intersection
set_intersection-IsRunFrom lo [] ys r s = tt
set_intersection-IsRunFrom lo (x ∷ xs) [] r s = tt
set_intersection-IsRunFrom lo (x ∷ xs) (y ∷ ys) r s = ground (
  arith,
  set_intersection-IsRunFrom lo xs (y ∷ ys),
  set_intersection-IsRunFrom lo (x ∷ xs) ys,
  set_intersection-IsRunFrom (suc x) xs ys,
  IsRunFrom-weaken lo (suc x) xs,
  IsRunFrom-weaken lo (suc y) ys,
)

module _ {ℓ} (P : ℕ → Type ℓ) where
  pub set_union-All : (xs ys : List ℕ) → All P xs → All P ys → All P (set_union xs ys)
  unfolding set_union
  set_union-All [] ys p q = q
  set_union-All (x ∷ xs) [] p q = p
  set_union-All (x ∷ xs) (y ∷ ys) p q =
      ground (arith, set_union-All xs (y ∷ ys), set_union-All (x ∷ xs) ys, set_union-All xs ys)

  pub set_intersection-All : (xs ys : List ℕ) → All P xs → All P ys → All P (set_intersection xs ys)
  unfolding set_intersection
  set_intersection-All [] ys p q = tt
  set_intersection-All (x ∷ xs) [] p q = tt
  set_intersection-All (x ∷ xs) (y ∷ ys) p q = ground (
    arith,
    set_intersection-All xs (y ∷ ys),
    set_intersection-All (x ∷ xs) ys,
    set_intersection-All xs ys,
  )
