-- ===== src/Snapshot/Chosen.antt =====
-- The datasets that `find_compact_candidate` (libursa/DatabaseSnapshot.cpp) chooses for a merge can
-- be merged.
use ursadb.Prelude.{
  ℕ, ◌+◌, ◌-◌, ◌/◌, ◌^◌, ◌≤◌, ◌≡◌, refl, Bool, true, false, ◌||◌, ◌⊎◌, inl, inr, List, [], ◌∷◌,
  arith, ltb, if◌then◌else◌, length, All, u64, ok, Bool-cases,
}
use mathlib.Core.List.{Mem, mem-cons_self, mem-cons_of_mem, Permᴰ}
use Prim.Native.String.{String}
use ursadb.Config.{get, merge_max_datasets, merge_max_files}
use ursadb.Database.Tasks.{TaskSpec}
use ursadb.Dataset.State.{OnDiskDataset}
use ursadb.Snapshot.Compatible.{class_of, get_compatible_datasets}
use ursadb.Snapshot.CanMerge.{CanMerge, Chooses, Chooses-CanMerge}
use ursadb.Snapshot.Candidates.{
  score, ready_candidates, file_count, add_files, reverse_onto, shrink, get_compact_candidates,
  choose, better, best_of, best_compact, compact_value,
}
use ursadb.Snapshot.Groups.{
  All-Perm, All-reverse_onto, smallest-All, OneClass, get_compatible_datasets-OneClass, file_total,
  add_files-total, file_total-Perm, file_total-reverse_onto, length-reverse_onto,
}
use ursadb.Snapshot.State.{DatabaseSnapshot, is_dataset_locked}

-- The loop that pops candidates ends before there are none left, within both limits.
record Shrunk (max_datasets max_files : ℕ) (cands : List OnDiskDataset) (r : List OnDiskDataset × ℕ)
    : Type 1 where
  few : length r.0 ≤ max_datasets
  small : r.1 ≤ max_files
  counted : r.1 ≡ u64 (file_total r.0)
  kept : (Q : OnDiskDataset → Type 0) → All Q cands → All Q r.0

shrink-Shrunk :
    (max_datasets max_files : ℕ) (cands : List OnDiskDataset) (n : ℕ)
    → n ≡ u64 (file_total cands)
    → (r : List OnDiskDataset × ℕ) × (shrink max_datasets max_files cands n ≡ ok r)
      × Shrunk max_datasets max_files cands r
unfolding shrink
shrink-Shrunk max_datasets max_files [] n e =
    let z : n ≡ 0 = omega (arith, e) in
    let stop : (ltb max_datasets 0 || ltb max_files n) ≡ false = ground (arith, z) in
    (
      ([], n),
      rw stop refl,
      record { few = omega arith; small = omega (arith, z); counted = e; kept = λ Q h. h },
    )
shrink-Shrunk max_datasets max_files (last ∷ cands) n e =
    elim (Bool-cases (ltb max_datasets (length (last ∷ cands)) || ltb max_files n)) [
      | inl more ↦
          let m = u64 (n + (2 ^ 64 - u64 (file_count last))) in
          let left : m ≡ u64 (file_total cands) = omega (arith, e) in
          let (r, done, h) = shrink-Shrunk max_datasets max_files cands m left in
          (
            r,
            rw (more, shrink) done,
            record {
              few = h.few;
              small = h.small;
              counted = h.counted;
              kept = λ Q k. h.kept Q k.1;
            },
          )
      | inr stop ↦ (
        (last ∷ cands, n),
        rw (stop, shrink) refl,
        record {
          few = ground (arith, stop);
          small = ground (arith, stop);
          counted = e;
          kept = λ Q k. k;
        },
      )
    ]

All-Mem : (xs : List OnDiskDataset) → All (λ ds. Mem ds xs) xs
All-Mem [] = tt
All-Mem (x ∷ xs) = (mem-cons_self, All-map xs (λ ds h. mem-cons_of_mem x h) (All-Mem xs))
  where
    All-map :
        (ys : List OnDiskDataset)
        → ((ds : OnDiskDataset) → Mem ds xs → Mem ds (x ∷ xs))
        → All (λ ds. Mem ds xs) ys
        → All (λ ds. Mem ds (x ∷ xs)) ys
    All-map [] f h = tt
    All-map (y ∷ ys) f h = (f y h.0, All-map ys f h.1)

ready_candidates-Unlocked :
    (tasks : List (ℕ × TaskSpec)) (P : OnDiskDataset → Type 0) (xs : List OnDiskDataset)
    → All P xs
    → All (λ ds. P ds × (is_dataset_locked tasks ds.id ≡ false)) (ready_candidates tasks xs)
unfolding ready_candidates
ready_candidates-Unlocked tasks P [] h = tt
ready_candidates-Unlocked tasks P (x ∷ xs) h = elim (Bool-cases (is_dataset_locked tasks x.id)) [
  | inl locked ↦ rw locked (ready_candidates-Unlocked tasks P xs h.1)
  | inr free ↦ rw free ((h.0, free), ready_candidates-Unlocked tasks P xs h.1)
]

module _ (sort : (OnDiskDataset → ℕ) → List OnDiskDataset → List OnDiskDataset)
    (sorts : (key : OnDiskDataset → ℕ) (xs : List OnDiskDataset) → Permᴰ (sort key xs) xs)
    (snap : DatabaseSnapshot) (smart : Bool) where
  abbrev candidates_of : List OnDiskDataset → List OnDiskDataset
  candidates_of set = if smart then get_compact_candidates sort set else set

  candidates_of-All :
      (P : OnDiskDataset → Type 0) (b : Bool) (set : List OnDiskDataset)
      → All P set
      → All P (if b then get_compact_candidates sort set else set)
  unfolding get_compact_candidates
  candidates_of-All P false set h = h
  candidates_of-All P true set h = elim (Bool-cases (ltb (length set) 2)) [
    | inl few ↦ rw few tt
    | inr enough ↦ rw enough (smallest-All P (sort score set) (All-Perm P (sorts score set) h))
  ]

  -- What is chosen of a set, from the last to the first, with the number of its files.
  record Choice (chosen : List OnDiskDataset × ℕ) : Type 0 where
    members : (key : List String) × All (Chooses snap key) chosen.0
    few : length chosen.0 ≤ get snap.config merge_max_datasets
    small : chosen.1 ≤ get snap.config merge_max_files
    counted : chosen.1 ≡ u64 (file_total chosen.0)

  choose-Choice :
      (set : List OnDiskDataset)
      → OneClass (λ ds. Mem ds snap.datasets) set
      → (chosen : List OnDiskDataset × ℕ) × (choose sort snap smart set ≡ ok chosen) × Choice chosen
  unfolding choose
  choose-Choice set (key, h) =
      let ready = ready_candidates snap.tasks (candidates_of set) in
      let sorted = sort file_count ready in
      let Q = Chooses snap key in
      let unlocked =
        ready_candidates-Unlocked snap.tasks (λ ds. Mem ds snap.datasets × (class_of ds ≡ key)) _
          (candidates_of-All (λ ds. Mem ds snap.datasets × (class_of ds ≡ key)) smart set h) in
      let backwards =
        All-reverse_onto Q [] sorted tt (All-Perm Q (sorts file_count ready) unlocked) in
      let z : u64 0 ≡ 0 = refl in
      let total : add_files 0 ready ≡ u64 (file_total (reverse_onto [] sorted)) = omega (
        arith,
        add_files-total 0 ready,
        file_total-reverse_onto [] sorted,
        file_total-Perm (sorts file_count ready),
      ) in
      let (chosen, done, shrunk) = shrink-Shrunk _ _ (reverse_onto [] sorted) _ total in
      (
        chosen,
        done,
        record {
          members = (key, shrunk.kept Q backwards);
          few = shrunk.few;
          small = shrunk.small;
          counted = shrunk.counted;
        },
      )

  -- No candidates, or some that can be merged.
  abbrev Best : ℕ × List OnDiskDataset → Type 0
  Best best = (best.1 ≡ []) ⊎ CanMerge snap best.1

  better-Best :
      (chosen : List OnDiskDataset × ℕ) (best : ℕ × List OnDiskDataset)
      → Choice chosen
      → Best best
      → Best (better sort chosen best)
  unfolding better
  better-Best (chosen, n) (best_value, best) h k =
      let value = compact_value (length chosen) (n / length chosen) in
      elim (Bool-cases (ltb (length chosen) 2)) [
        | inl few ↦ rw few k
        | inr enough ↦ elim (Bool-cases (ltb best_value value)) [
          | inr worse ↦ rw (enough, worse) k
          | inl improved ↦
              let (key, all) = h.members in
              let size = length-reverse_onto [] chosen in
              let files = file_total-reverse_onto [] chosen in
              rw (enough, improved)
                (inr (
                  Chooses-CanMerge snap key _ (All-reverse_onto _ [] chosen tt all)
                    (ground (arith, size, enough)) (omega (arith, size, h.few))
                    (omega (arith, files, h.small, h.counted))))
        ]
      ]

  best_of-Best :
      (sets : List (List OnDiskDataset)) (best : ℕ × List OnDiskDataset)
      → All (OneClass (λ ds. Mem ds snap.datasets)) sets
      → Best best
      → (r : ℕ × List OnDiskDataset) × (best_of sort snap smart sets best ≡ ok r) × Best r
  unfolding best_of
  best_of-Best [] best h k = (best, refl, k)
  best_of-Best (set ∷ sets) best h k =
      let (chosen, done, choice) = choose-Choice set h.0 in
      let (r, later, good) =
        best_of-Best sets (better sort chosen best) h.1 (better-Best chosen best choice k) in
      (r, rw done later, good)

  -- Where `std::sort` permutes its elements, the search for datasets to merge ends without an
  -- exception, both the smart one and the full one, and finds none, or datasets of the snapshot that
  -- can be merged: at least two and at most `merge_max_datasets`, none of them among the locks of any
  -- task, all with the same taints and with indexes of the same types, so that the checks of `merge`
  -- pass, with at most `merge_max_files` files.
  pub best_compact-CanMerge :
      (chosen : List OnDiskDataset) × (best_compact sort snap smart ≡ ok chosen)
      × ((chosen ≡ []) ⊎ CanMerge snap chosen)
  unfolding best_compact
  best_compact-CanMerge =
      let (r, done, good) =
        best_of-Best (get_compatible_datasets snap.datasets) (0, [])
          (get_compatible_datasets-OneClass (λ ds. Mem ds snap.datasets) snap.datasets
            (All-Mem snap.datasets))
          (inl refl) in
      (r.1, rw done refl, good)
