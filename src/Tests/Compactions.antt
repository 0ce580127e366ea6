-- ===== src/Tests/Compactions.antt =====
-- `OnDiskDataset::merge` (libursa/OnDiskDataset.cpp) on two datasets of a file each.
use ursadb.Prelude.{
  ℕ, ◌+◌, ◌-◌, ◌*◌, ◌^◌, ◌≤◌, ◌<◌, ◌≡◌, refl, true, List, [], ◌∷◌, ◌++◌, arith, length, All, u32,
  u64, ok, some, suc, minus_one64,
}
use mathlib.Core.Path.{subst}
use ursadb.Core.{IndexType, gram3, text4, hash4, wide8, num_trigrams, raw}
use ursadb.FileIndex.Lookup.{IsName}
use ursadb.Database.Iterators.{OnDiskIterator}
use ursadb.Database.Tasks.{dataset_lock, iterator_lock}
use ursadb.FileIndex.Names.{write_names}
use ursadb.FileIndex.Pop.{pop, pop_lem}
use ursadb.Snapshot.Compact.{Task, db_change, insert_change, compact_locked_datasets}
use ursadb.Snapshot.Compacted.{drops, compact_locked_datasets-IsDataset}
use ursadb.Snapshot.State.{DatabaseSnapshot}
use ursadb.Index.Batch.{IndexMergeHelper, batch_bytes, run_size, find_max_batch_unchecked}
use ursadb.Index.File.{read_run_offsets}
use ursadb.Index.Layout.{start_of, run_array-layout}
use ursadb.Index.Merge.{max_batch_bytes, read_bytes}
use ursadb.Index.MergeLoop.{BatchesFit}
use ursadb.Dataset.Files.{IsDataset}
use ursadb.Dataset.Merge.{
  MergedFiles, helper_of, helpers_of, taints_compatible, types_compatible, merge, open_merged,
}
use ursadb.Dataset.Merged.{merge-IsDataset}
use ursadb.Dataset.Parts.{Part, IsPart, datasets_of, part_names, part_files}
use ursadb.Dataset.State.{
  OnDiskDataset, get_index_with_type, index_types, same_types, types_among, types_to_query,
  is_taint_compatible, contains_all,
}
use ursadb.Tests.Merges.{takes_all}
use ursadb.Tests.Sample.{abc_files, abc_run, abc_index, abc_fits, abc_size}
use ursadb.Tests.Snapshots.{abc_names, abc_dataset, abc_dataset-IsDataset}

abbrev abc_part : Part
abc_part = record { ds = abc_dataset; names = abc_names; files = abc_files }

-- The same under another id.
abbrev other_dataset : OnDiskDataset
other_dataset = record abc_dataset { name = "set.other.db"; id = "other" }

other_dataset-IsDataset : IsDataset other_dataset abc_names abc_files
other_dataset-IsDataset = record {
  named = abc_dataset-IsDataset.named;
  paired = abc_dataset-IsDataset.paired;
  few = abc_dataset-IsDataset.few;
  indexes = abc_dataset-IsDataset.indexes;
}

abbrev other_part : Part
other_part = record { ds = other_dataset; names = abc_names; files = abc_files }

abbrev parts : List Part
parts = abc_part ∷ other_part ∷ []

parts-IsPart : All IsPart parts
parts-IsPart = (abc_dataset-IsDataset, (other_dataset-IsDataset, tt))

abbrev read_helper : IndexMergeHelper
read_helper = record {
  index = abc_index;
  file_count = u32 abc_dataset.files_index.file_count;
  run_offset_cache = read_run_offsets abc_index.ndxfile;
}

offsets_read :
    (t : ℕ) → t ≤ num_trigrams → read_run_offsets abc_index.ndxfile t ≡ start_of abc_run t
unfolding read_run_offsets
offsets_read t le = run_array-layout gram3 abc_run abc_fits t le

read_size : (t j : ℕ) → t + j ≤ num_trigrams → run_size read_helper t j ≤ j
unfolding run_size
read_size t j le = rw (offsets_read t (omega (arith, le)), offsets_read (t + j) le) (abc_size t j)

both_bytes :
    (t j : ℕ)
    → t + j ≤ num_trigrams
    → (batch_bytes (read_helper ∷ read_helper ∷ []) t j ≤ 2 * j)
      × (read_bytes (read_helper ∷ read_helper ∷ []) t j ≤ 2 * j)
unfolding batch_bytes read_bytes
both_bytes t j le = let size = read_size t j le in (omega (arith, size), omega (arith, size))

read_batch : BatchesFit (read_helper ∷ read_helper ∷ [])
read_batch t h =
    let batch =
      (find_max_batch_unchecked (read_helper ∷ read_helper ∷ []) t max_batch_bytes h).1
        (λ j below. omega (arith, (both_bytes t j (omega arith)).0)) in
    rw batch (omega arith, omega (arith, (both_bytes t (num_trigrams - t) (omega arith)).1))

ok_injective : (xs ys : List IndexMergeHelper) → ok xs ≡ ok ys → xs ≡ ys
ok_injective xs ys h = cc

batches :
    (type : IndexType) (indexes : List IndexMergeHelper)
    → helpers_of (datasets_of parts) type ≡ ok indexes
    → BatchesFit indexes
unfolding helpers_of helper_of get_index_with_type raw
batches gram3 indexes h =
    subst BatchesFit (ok_injective (read_helper ∷ read_helper ∷ []) indexes h) read_batch
batches text4 indexes h = absurd (ground (arith, h))
batches hash4 indexes h = absurd (ground (arith, h))
batches wide8 indexes h = absurd (ground (arith, h))

same_taints : taints_compatible abc_dataset (other_dataset ∷ []) ≡ true
unfolding taints_compatible is_taint_compatible contains_all
same_taints = refl

same_indexes : types_compatible (index_types abc_dataset) (other_dataset ∷ []) ≡ true
unfolding types_compatible index_types types_among types_to_query same_types raw
same_indexes = refl

both_names-IsName : All IsName (part_names parts)
both_names-IsName = (
  record { nonempty = refl; one_line = (refl, tt) },
  (record { nonempty = refl; one_line = (refl, tt) }, tt),
)

both_short : length (write_names (part_names parts)) < 2 ^ 64
unfolding write_names
both_short = omega arith

merge-IsDataset_example :
    (files : MergedFiles) × (ds : OnDiskDataset) × (merge takes_all (datasets_of parts) ≡ ok files)
    × (open_merged "set.both.db" "both" files ≡ ok ds)
    × IsDataset ds (part_names parts) (part_files parts)
    × (index_types ds ≡ index_types abc_dataset)
    × (ds.taints ≡ [])
merge-IsDataset_example =
    merge-IsDataset takes_all (λ f b. refl) parts parts-IsPart (omega arith) batches "set.both.db"
      "both" abc_part other_part [] refl same_taints same_indexes both_names-IsName both_short

-- A task that has locked both, and an iterator.
abbrev compacting : Task
compacting = record {
  spec = record {
    id = 2;
    conn_id = "client";
    request_str = "compact";
    epoch_ms = 7;
    work_estimated = 0;
    work_done = 0;
    locks = dataset_lock "abc" ∷ iterator_lock "read" ∷ dataset_lock "other" ∷ [];
  };
  changes = [];
}

abbrev both_snapshot : DatabaseSnapshot
both_snapshot = record {
  config = [];
  datasets = other_dataset ∷ abc_dataset ∷ [];
  tasks = (2, compacting.spec) ∷ [];
}

compact_locked_datasets-IsDataset_example :
    (files : MergedFiles) × (ds : OnDiskDataset) × (compact_locked_datasets takes_all "set.both.db"
        both_snapshot compacting
      ≡ ok (
        some files,
        record compacting {
          changes =
              compacting.changes
              ++ (drops (datasets_of parts) ++ db_change insert_change "set.both.db" ∷ []);
        },
      ))
    × (open_merged "set.both.db" "both" files ≡ ok ds)
    × IsDataset ds (part_names parts) (part_files parts)
    × (index_types ds ≡ index_types abc_dataset)
    × (ds.taints ≡ [])
compact_locked_datasets-IsDataset_example =
    compact_locked_datasets-IsDataset takes_all (λ f b. refl) parts parts-IsPart (omega arith)
      batches "set.both.db" "both" both_snapshot compacting abc_part other_part [] refl same_taints
      same_indexes both_names-IsName both_short ((refl, tt), (tt, tt)) ((1, refl), ((0, refl), tt))
      refl

-- A result file with the names "a" and "bc", read from its start.
abbrev fresh : OnDiskIterator
fresh = record { total_files = 2; byte_offset = 0; file_offset = 0; last_read_time = 5 }

abbrev two_names : List (List ℕ)
two_names = (97 ∷ []) ∷ (98 ∷ 99 ∷ []) ∷ []

pop_lem_example :
    (pop (write_names ([] ++ (two_names ++ abc_names))) (length two_names) fresh ≡ (
      two_names,
      record fresh {
        byte_offset = length (write_names ([] ++ two_names));
        file_offset = u64 (fresh.file_offset + length two_names);
      },
    ))
    × (pop (write_names ([] ++ two_names)) (length two_names + suc 3) fresh ≡ (
      two_names,
      record fresh {
        byte_offset = minus_one64;
        file_offset = u64 (fresh.file_offset + length two_names);
      },
    ))
pop_lem_example =
    pop_lem [] two_names abc_names 3 fresh ((refl, tt), ((refl, (refl, tt)), tt))
      (unfold write_names in refl)
