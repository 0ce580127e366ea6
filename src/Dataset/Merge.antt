-- ===== src/Dataset/Merge.antt =====
-- `OnDiskDataset::merge` (libursa/OnDiskDataset.cpp): the checks, an index of every type, and the
-- names of the files; and the dataset that is opened with what it wrote. The progress of the task,
-- the names of the files in the directory, and the JSON file are left out.
use ursadb.Prelude.{
  ℕ, Bool, true, ◌&&◌, List, [], ◌∷◌, ◌++◌, none, u32, Result, ok, err, guard, ◌>>=◌, ◌>>◌,
  too_few_datasets, different_taints, different_index_types,
}
use Prim.Native.String.{String}
use ursadb.Core.{IndexType}
use ursadb.FileIndex.Names.{for_each_filename, write_names, open_file_index}
use ursadb.Index.Batch.{IndexMergeHelper}
use ursadb.Index.Bytes.{as_index_file}
use ursadb.Index.File.{OnDiskIndex, open_index, read_run_offsets}
use ursadb.Index.Merge.{on_disk_merge}
use ursadb.Dataset.State.{
  OnDiskDataset, is_taint_compatible, get_index_with_type, index_types, same_types,
}

-- What `merge` writes: the bytes of the indexes, and of the list of names, and the taints.
pub record MergedFiles : Type 0 where
  pub indexes : List (List ℕ)
  pub fname_list : List ℕ
  pub merged_taints : List String

-- `IndexMergeHelper(&index, get_file_count(), index.read_run_offsets())`
unfoldable pub helper_of : OnDiskDataset → IndexType → Result IndexMergeHelper
unfolding read_run_offsets
helper_of dataset ndxtype = get_index_with_type dataset.indices ndxtype >>= λ index. ok (record {
  index = index;
  file_count = u32 dataset.files_index.file_count;
  run_offset_cache = read_run_offsets index.ndxfile;
})

unfoldable pub helpers_of : List OnDiskDataset → IndexType → Result (List IndexMergeHelper)
unfolding helper_of
helpers_of [] ndxtype = ok []
helpers_of (dataset ∷ datasets) ndxtype = do
  helper ← helper_of dataset ndxtype
  indexes ← helpers_of datasets ndxtype
  ok (helper ∷ indexes)

unfoldable pub taints_compatible : OnDiskDataset → List OnDiskDataset → Bool
taints_compatible first [] = true
taints_compatible first (dataset ∷ datasets) =
    is_taint_compatible first dataset && taints_compatible first datasets

unfoldable pub types_compatible : List IndexType → List OnDiskDataset → Bool
types_compatible types [] = true
types_compatible types (dataset ∷ datasets) =
    same_types (index_types dataset) types && types_compatible types datasets

-- `of << fname << "\n"` for the names of all datasets.
unfoldable pub write_all_names : List OnDiskDataset → List ℕ
write_all_names [] = []
write_all_names (ds ∷ datasets) =
    write_names (for_each_filename ds.files_index) ++ write_all_names datasets

module _ (accepts : List ℕ → List ℕ → Bool) where
  unfoldable pub merge_types : List OnDiskDataset → List IndexType → Result (List (List ℕ))
  unfolding helpers_of
  merge_types datasets [] = ok []
  merge_types datasets (ndxtype ∷ types) = do
    indexes ← helpers_of datasets ndxtype
    file ← on_disk_merge accepts ndxtype indexes
    files ← merge_types datasets types
    ok (file ∷ files)

  unfoldable pub merge : List OnDiskDataset → Result MergedFiles
  unfolding merge_types write_all_names taints_compatible types_compatible
  merge [] = err too_few_datasets
  merge (first ∷ []) = err too_few_datasets
  merge (first ∷ second ∷ datasets) = do
    guard (taints_compatible first (second ∷ datasets)) different_taints
    guard (types_compatible (index_types first) (second ∷ datasets)) different_index_types
    files ← merge_types (first ∷ second ∷ datasets) (index_types first)
    ok (record {
      indexes = files;
      fname_list = write_all_names (first ∷ second ∷ datasets);
      merged_taints = first.taints;
    })

-- `indices.emplace_back(db_base / index_fname)`, in the order in which the indexes were written. The
-- JSON file has their names in its own order; there is at most one index of a type.
unfoldable pub open_indexes : List (List ℕ) → Result (List OnDiskIndex)
open_indexes [] = ok []
open_indexes (bytes ∷ files) = do
  ntype ← open_index (as_index_file bytes)
  indices ← open_indexes files
  ok (record { ndxfile = as_index_file bytes; ntype = ntype } ∷ indices)

-- The constructor, where there is no cache of the names yet.
unfoldable pub open_merged : String → String → MergedFiles → Result OnDiskDataset
unfolding open_indexes
open_merged name id files = open_indexes files.indexes >>= λ indices. ok (record {
  name = name;
  id = id;
  files_index = open_file_index files.fname_list none;
  indices = indices;
  taints = files.merged_taints;
})
