-- ===== src/Snapshot/Candidates.antt =====
-- Which datasets are to be merged: `OnDiskDataset::get_compact_candidates`
-- (libursa/OnDiskDataset.cpp) and `DatabaseSnapshot::find_compact_candidate`
-- (libursa/DatabaseSnapshot.cpp).
use ursadb.Prelude.{
  ℕ, ◌+◌, ◌-◌, ◌*◌, ◌/◌, ◌^◌, Bool, true, false, ◌||◌, List, [], ◌∷◌, ltb, if◌then◌else◌, length,
  u64, Result, ok, err, ◌>>=◌, out_of_bounds,
}
use Prim.Native.String.{String}
use ursadb.Config.{get, merge_max_datasets, merge_max_files}
use ursadb.Database.Tasks.{TaskSpec}
use ursadb.Dataset.State.{OnDiskDataset}
use ursadb.Index.File.{OnDiskIndex}
use ursadb.Snapshot.Compatible.{get_compatible_datasets}
use ursadb.Snapshot.State.{DatabaseSnapshot, is_dataset_locked}

-- The sum of the sizes of the index files.
unfoldable pub add_sizes : ℕ → List OnDiskIndex → ℕ
add_sizes dataset_size [] = dataset_size
add_sizes dataset_size (ndx ∷ indices) =
    add_sizes (u64 (dataset_size + ndx.ndxfile.index_size)) indices

unfoldable pub score : OnDiskDataset → ℕ
unfolding add_sizes
score ds = add_sizes 0 ds.indices

-- The loop over `offset`, where `last` is the dataset before it.
unfoldable pub take_growing : OnDiskDataset → List OnDiskDataset → List OnDiskDataset
unfolding score
take_growing last [] = []
take_growing last (ds ∷ scores) = elim (ltb (score ds) (u64 (score last * 2))) [
  | true ↦ ds ∷ take_growing ds scores
  | false ↦ []
]

unfoldable pub smallest : List OnDiskDataset → List OnDiskDataset
unfolding take_growing
smallest [] = []
smallest (ds ∷ scores) =
    let out = ds ∷ take_growing ds scores in if ltb (length out) 2 then [] else out

unfoldable pub ready_candidates : List (ℕ × TaskSpec) → List OnDiskDataset → List OnDiskDataset
unfolding is_dataset_locked
ready_candidates tasks [] = []
ready_candidates tasks (candidate ∷ candidates) =
    let rest = ready_candidates tasks candidates in
    if is_dataset_locked tasks candidate.id then rest else candidate ∷ rest

abbrev pub file_count : OnDiskDataset → ℕ
file_count ds = ds.files_index.file_count

unfoldable pub add_files : ℕ → List OnDiskDataset → ℕ
add_files number_of_files [] = number_of_files
add_files number_of_files (candidate ∷ candidates) =
    add_files (u64 (number_of_files + file_count candidate)) candidates

abbrev pub reverse_onto : List OnDiskDataset → List OnDiskDataset → List OnDiskDataset
reverse_onto done [] = done
reverse_onto done (ds ∷ datasets) = reverse_onto (ds ∷ done) datasets

-- The loop that pops the last candidate, on the candidates from the last to the first. Popping from
-- none is undefined; here it fails.
unfoldable pub shrink : ℕ → ℕ → List OnDiskDataset → ℕ → Result (List OnDiskDataset × ℕ)
shrink max_datasets max_files [] number_of_files =
    if ltb max_datasets 0 || ltb max_files number_of_files
    then err out_of_bounds
    else ok ([], number_of_files)
shrink max_datasets max_files (last ∷ candidates) number_of_files =
    elim (ltb max_datasets (length (last ∷ candidates)) || ltb max_files number_of_files) [
      | true ↦
          shrink max_datasets max_files candidates
            (u64 (number_of_files + (2 ^ 64 - u64 (file_count last))))
      | false ↦ ok (last ∷ candidates, number_of_files)
    ]

-- `int64_t compact_value`, 2 ^ 63 more than it, so that it is never below zero.
unfoldable pub compact_value : ℕ → ℕ → ℕ
compact_value size avg_files = u64 (size + 2 ^ 63 + (2 ^ 64 - avg_files))

-- `std::sort` by a number; it puts those of the same number in any order.
module _ (sort : (OnDiskDataset → ℕ) → List OnDiskDataset → List OnDiskDataset) where
  unfoldable pub get_compact_candidates : List OnDiskDataset → List OnDiskDataset
  unfolding smallest
  get_compact_candidates datasets =
      if ltb (length datasets) 2 then [] else smallest (sort score datasets)

  -- What is left of a set of compatible datasets, from the last to the first, and its files.
  unfoldable pub choose :
      DatabaseSnapshot → Bool → List OnDiskDataset → Result (List OnDiskDataset × ℕ)
  unfolding get_compact_candidates ready_candidates add_files shrink
  choose snap smart set =
      let candidates = if smart then get_compact_candidates set else set in
      let ready = ready_candidates snap.tasks candidates in
      shrink (get snap.config merge_max_datasets) (get snap.config merge_max_files)
        (reverse_onto [] (sort file_count ready)) (add_files 0 ready)

  -- One round of the loop: the best value, and the best candidates.
  unfoldable pub better : List OnDiskDataset × ℕ → ℕ × List OnDiskDataset → ℕ × List OnDiskDataset
  unfolding compact_value
  better (chosen, number_of_files) (best_value, best) =
      let value = compact_value (length chosen) (number_of_files / length chosen) in
      if ltb (length chosen) 2
      then (best_value, best)
      else if ltb best_value value
      then (value, reverse_onto [] chosen)
      else (best_value, best)

  unfoldable pub best_of :
      DatabaseSnapshot
      → Bool
      → List (List OnDiskDataset)
      → ℕ × List OnDiskDataset
      → Result (ℕ × List OnDiskDataset)
  unfolding choose better
  best_of snap smart [] best = ok best
  best_of snap smart (set ∷ sets) best =
      choose snap smart set >>= λ chosen. best_of snap smart sets (better chosen best)

  abbrev pub ids_of : List OnDiskDataset → List String
  ids_of [] = []
  ids_of (ds ∷ datasets) = ds.id ∷ ids_of datasets

  -- `best_compact`; the code returns the ids of its datasets.
  unfoldable pub best_compact : DatabaseSnapshot → Bool → Result (List OnDiskDataset)
  unfolding best_of get_compatible_datasets
  best_compact snap smart =
      best_of snap smart (get_compatible_datasets snap.datasets) (0, []) >>= λ best. ok best.1

  unfoldable pub find_compact_candidate : DatabaseSnapshot → Bool → Result (List String)
  unfolding best_compact
  find_compact_candidate snap smart = best_compact snap smart >>= λ best. ok (ids_of best)
