-- ===== src/Snapshot/Groups.antt =====
-- What the steps of `get_compatible_datasets`, `get_compact_candidates` (libursa/OnDiskDataset.cpp)
-- and `find_compact_candidate` (libursa/DatabaseSnapshot.cpp) keep of the datasets.
use ursadb.Prelude.{
  ℕ, ◌+◌, ◌*◌, ◌≡◌, refl, sym, ap, ◌∙◌, ◌⊎◌, inl, inr, List, [], ◌∷◌, ◌++◌, arith, ltb, length, All,
  u64, Bool-cases,
}
use mathlib.Core.List.{Permᴰ}
use mathlib.Core.List.Permᴰ.{nil, cons, swap, trans}
use mathlib.Core.Path.{subst}
use Prim.Native.Nat.{Ordering}
use Prim.Native.String.{String, compare}
use text.Mathlib.TextEquality.{path_by_compare}
use ursadb.Dataset.State.{OnDiskDataset}
use ursadb.Snapshot.Compatible.{
  class_of, compare_sets, Partial, push_partial, partial_loop, values_of, get_compatible_datasets,
}
use ursadb.Snapshot.Candidates.{take_growing, smallest, score, file_count, add_files, reverse_onto}

pub Ordering-cases : (o : Ordering) → (o ≡ Ordering.lt) ⊎ ((o ≡ Ordering.eq) ⊎ (o ≡ Ordering.gt))
Ordering-cases Ordering.lt = inl refl
Ordering-cases Ordering.eq = inr (inl refl)
Ordering-cases Ordering.gt = inr (inr refl)

compare_sets-eq : (ss ts : List String) → compare_sets ss ts ≡ Ordering.eq → ss ≡ ts
unfolding compare_sets
compare_sets-eq [] [] h = refl
compare_sets-eq [] (t ∷ ts) h = absurd (ground (arith, h))
compare_sets-eq (s ∷ ss) [] h = absurd (ground (arith, h))
compare_sets-eq (s ∷ ss) (t ∷ ts) h = elim (Ordering-cases (compare s t)) [
  | inl less ↦ absurd (let k = rw (less, compare_sets) at h in ground (arith, k))
  | inr (inl same) ↦
      let k = rw (same, compare_sets) at h in
      let e = path_by_compare s t same in
      let f = compare_sets-eq ss ts k in ap (λ x. x ∷ ss) e ∙ ap (λ xs. t ∷ xs) f
  | inr (inr more) ↦ absurd (let k = rw (more, compare_sets) at h in ground (arith, k))
]

module _ (P : OnDiskDataset → Type 0) where
  All-append : (xs ys : List OnDiskDataset) → All P xs → All P ys → All P (xs ++ ys)
  All-append [] ys h k = k
  All-append (x ∷ xs) ys h k = (h.0, All-append xs ys h.1 k)

  pub All-Perm : {xs ys : List OnDiskDataset} → Permᴰ xs ys → All P ys → All P xs
  All-Perm nil h = tt
  All-Perm (cons e p) h = (subst P (sym e) h.0, All-Perm p h.1)
  All-Perm (swap e f) h = (subst P (sym e) h.1.0, (subst P (sym f) h.0, h.1.1))
  All-Perm (trans p q) h = All-Perm p (All-Perm q h)

  pub All-reverse_onto :
      (done xs : List OnDiskDataset) → All P done → All P xs → All P (reverse_onto done xs)
  All-reverse_onto done [] h k = h
  All-reverse_onto done (x ∷ xs) h k = All-reverse_onto (x ∷ done) xs (k.0, h) k.1

  take_growing-All :
      (last : OnDiskDataset) (xs : List OnDiskDataset) → All P xs → All P (take_growing last xs)
  unfolding take_growing
  take_growing-All last [] h = tt
  take_growing-All last (x ∷ xs) h = elim (Bool-cases (ltb (score x) (u64 (score last * 2)))) [
    | inl near ↦ rw (near, take_growing) (h.0, take_growing-All x xs h.1)
    | inr far ↦ rw (far, take_growing) tt
  ]

  pub smallest-All : (xs : List OnDiskDataset) → All P xs → All P (smallest xs)
  unfolding smallest
  smallest-All [] h = tt
  smallest-All (x ∷ xs) h = elim (Bool-cases (ltb (length (x ∷ take_growing x xs)) 2)) [
    | inl few ↦ rw few tt
    | inr enough ↦ rw enough (h.0, take_growing-All x xs h.1)
  ]

-- The datasets of a set have one class.
abbrev pub OneClass : (OnDiskDataset → Type 0) → List OnDiskDataset → Type 0
OneClass P set = (key : List String) × All (λ ds. P ds × (class_of ds ≡ key)) set

module _ (P : OnDiskDataset → Type 0) where
  abbrev Grouped : Partial → Type 0
  Grouped partial = All (λ kv. All (λ ds. P ds × (class_of ds ≡ kv.0)) kv.1) partial

  push_partial-Grouped :
      (ds : OnDiskDataset) (partial : Partial)
      → P ds
      → Grouped partial
      → Grouped (push_partial (class_of ds) ds partial)
  unfolding push_partial
  push_partial-Grouped ds [] p h = (((p, refl), tt), tt)
  push_partial-Grouped ds ((key, set) ∷ partial) p h =
      elim (Ordering-cases (compare_sets (class_of ds) key)) [
        | inl less ↦ rw (less, push_partial) (((p, refl), tt), h)
        | inr (inl same) ↦
            rw (same, push_partial)
              (
                All-append (λ d. P d × (class_of d ≡ key)) set (ds ∷ []) h.0
                    ((p, compare_sets-eq (class_of ds) key same), tt),
                h.1,
              )
        | inr (inr more) ↦ rw (more, push_partial) (h.0, push_partial-Grouped ds partial p h.1)
      ]

  partial_loop-Grouped :
      (datasets : List OnDiskDataset) (partial : Partial)
      → All P datasets
      → Grouped partial
      → Grouped (partial_loop datasets partial)
  unfolding partial_loop
  partial_loop-Grouped [] partial h k = k
  partial_loop-Grouped (ds ∷ datasets) partial h k =
      partial_loop-Grouped datasets (push_partial (class_of ds) ds partial) h.1
        (push_partial-Grouped ds partial h.0 k)

  values_of-OneClass : (partial : Partial) → Grouped partial → All (OneClass P) (values_of partial)
  unfolding values_of
  values_of-OneClass [] h = tt
  values_of-OneClass ((key, set) ∷ partial) h = ((key, h.0), values_of-OneClass partial h.1)

  pub get_compatible_datasets-OneClass :
      (datasets : List OnDiskDataset)
      → All P datasets
      → All (OneClass P) (get_compatible_datasets datasets)
  unfolding get_compatible_datasets
  get_compatible_datasets-OneClass datasets h =
      values_of-OneClass (partial_loop datasets []) (partial_loop-Grouped datasets [] h tt)

-- The files of some datasets.
abbrev pub file_total : List OnDiskDataset → ℕ
file_total [] = 0
file_total (ds ∷ datasets) = file_count ds + file_total datasets

pub add_files-total :
    (n : ℕ) (xs : List OnDiskDataset) → add_files (u64 n) xs ≡ u64 (n + file_total xs)
unfolding add_files
add_files-total n [] = let e : n + 0 ≡ n = omega arith in rw e refl
add_files-total n (x ∷ xs) =
    let e : u64 (u64 n + file_count x) ≡ u64 (n + file_count x) = omega arith in
    let f : n + (file_count x + file_total xs) ≡ n + file_count x + file_total xs = omega arith in
    rw (e, f) (add_files-total (n + file_count x) xs)

pub file_total-Perm : {xs ys : List OnDiskDataset} → Permᴰ xs ys → file_total xs ≡ file_total ys
file_total-Perm nil = refl
file_total-Perm (cons {a} {b} e p) =
    let f : file_count a ≡ file_count b = ap file_count e in omega (arith, f, file_total-Perm p)
file_total-Perm (swap {a} {b} {a'} {b'} e f) =
    let g : file_count a ≡ file_count b' = ap file_count e in
    let h : file_count b ≡ file_count a' = ap file_count f in omega (arith, g, h)
file_total-Perm (trans p q) = file_total-Perm p ∙ file_total-Perm q

pub file_total-reverse_onto :
    (done xs : List OnDiskDataset)
    → file_total (reverse_onto done xs) ≡ file_total done + file_total xs
file_total-reverse_onto done [] = omega arith
file_total-reverse_onto done (x ∷ xs) = omega (arith, file_total-reverse_onto (x ∷ done) xs)

pub length-reverse_onto :
    (done xs : List OnDiskDataset) → length (reverse_onto done xs) ≡ length done + length xs
length-reverse_onto done [] = omega arith
length-reverse_onto done (x ∷ xs) = omega (arith, length-reverse_onto (x ∷ done) xs)
