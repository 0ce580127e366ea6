-- ===== src/Snapshot/Compacted.antt =====
-- What compacting the locked datasets (libursa/DatabaseSnapshot.cpp) asks of the database.
use ursadb.Prelude.{
  ℕ, ◌^◌, ◌≤◌, ◌<◌, ◌≡◌, refl, sym, ap, ◌∙◌, Bool, true, false, List, [], ◌∷◌, ◌++◌, arith, ltb,
  length, All, some, ok,
}
use mathlib.Core.List.{append_assoc}
use mathlib.Core.Path.{subst}
use Prim.Native.String.{String}
use ursadb.Core.{IndexType}
use ursadb.Dataset.Files.{IsDataset}
use ursadb.Dataset.Merge.{
  MergedFiles, helpers_of, taints_compatible, types_compatible, merge, open_merged,
}
use ursadb.Dataset.Merged.{merge-IsDataset}
use ursadb.Dataset.Parts.{Part, datasets_of, part_names, part_files, IsPart}
use ursadb.Dataset.State.{OnDiskDataset, index_types}
use ursadb.FileIndex.Lookup.{IsName}
use ursadb.FileIndex.Names.{write_names}
use ursadb.Index.Batch.{IndexMergeHelper}
use ursadb.Index.MergeLoop.{BatchesFit}
use ursadb.Snapshot.Compact.{
  DbChange, Task, change, db_change, drop_change, insert_change, locked_datasets, drop_each,
  internal_compact, compact_locked_datasets,
}
use ursadb.Snapshot.Locked.{targets, ids_of, UniqueIds, StandsIn, locked_datasets-there}
use ursadb.Snapshot.State.{DatabaseSnapshot}

-- A change that drops each of them.
abbrev pub drops : List OnDiskDataset → List DbChange
drops [] = []
drops (ds ∷ datasets) = db_change drop_change ds.id ∷ drops datasets

drop_each-changes :
    (datasets : List OnDiskDataset) (task : Task)
    → drop_each datasets task ≡ record task { changes = task.changes ++ drops datasets }
unfolding drop_each change
drop_each-changes [] task = ap (λ cs. record task { changes = cs }) (append_nil task.changes)
  where
    append_nil : (cs : List DbChange) → cs ≡ cs ++ []
    append_nil [] = refl
    append_nil (c ∷ cs) = ap (λ more. c ∷ more) (append_nil cs)
drop_each-changes (ds ∷ datasets) task =
    drop_each-changes datasets (change (db_change drop_change ds.id) task)
    ∙ ap (λ cs. record task { changes = cs })
        (append_assoc task.changes (db_change drop_change ds.id ∷ []) (drops datasets))

compact_locked_datasets-merged :
    (accepts : List ℕ → List ℕ → Bool) (dataset_name : String) (snap : DatabaseSnapshot)
    (task : Task) (datasets : List OnDiskDataset) (files : MergedFiles)
    → locked_datasets snap task.spec.locks ≡ ok datasets
    → 2 ≤ length datasets
    → merge accepts datasets ≡ ok files
    → compact_locked_datasets accepts dataset_name snap task
      ≡ ok (
        some files,
        record task {
          changes = task.changes ++ (drops datasets ++ db_change insert_change dataset_name ∷ []);
        },
      )
unfolding compact_locked_datasets internal_compact
compact_locked_datasets-merged accepts dataset_name snap task datasets files locked enough done =
    let large : ltb (length datasets) 2 ≡ false = ground arith in
    rw (locked, large, internal_compact)
      (rw (done, drop_each-changes datasets task)
        (unfold change in
          ap (λ cs. ok (some files, record task { changes = cs }))
            (append_assoc task.changes (drops datasets)
              (db_change insert_change dataset_name ∷ []))))

module _ (accepts : List ℕ → List ℕ → Bool) (accepts_all : (f b : List ℕ) → accepts f b ≡ true)
    (parts : List Part) (are_datasets : All IsPart parts) (few : length (part_files parts) < 2 ^ 32)
    (batches : (type : IndexType) (indexes : List IndexMergeHelper)
      → helpers_of (datasets_of parts) type ≡ ok indexes
      → BatchesFit indexes) where
  -- A task that has locked two datasets or more of a snapshot, in which no two have the same id, and
  -- where they can be merged (they have the same taints and types of indexes, the system call takes
  -- every buffer, all batches fit into their vectors, and the names are not empty, have no newline,
  -- and their list has fewer than 2 ^ 64 bytes), compacts them without an exception, whatever locks
  -- of iterators it has: its changes drop each of them, in the order of the locks, and then insert
  -- the merged one, behind its earlier changes; and what is written is opened as the dataset of all
  -- their files, fewer than 2 ^ 32, with the taints and the types of indexes of the first one.
  pub compact_locked_datasets-IsDataset :
      (dataset_name id : String) (snap : DatabaseSnapshot) (task : Task) (first second : Part)
      (others : List Part)
      → parts ≡ first ∷ second ∷ others
      → taints_compatible first.ds (second.ds ∷ datasets_of others) ≡ true
      → types_compatible (index_types first.ds) (second.ds ∷ datasets_of others) ≡ true
      → All IsName (part_names parts)
      → length (write_names (part_names parts)) < 2 ^ 64
      → UniqueIds snap.datasets
      → All (StandsIn snap.datasets) (datasets_of parts)
      → targets task.spec.locks ≡ ids_of (datasets_of parts)
      → (files : MergedFiles) × (ds : OnDiskDataset) × (compact_locked_datasets accepts dataset_name
            snap task
          ≡ ok (
            some files,
            record task {
              changes =
                  task.changes
                  ++ (drops (datasets_of parts) ++ db_change insert_change dataset_name ∷ []);
            },
          ))
        × (open_merged dataset_name id files ≡ ok ds)
        × IsDataset ds (part_names parts) (part_files parts)
        × (index_types ds ≡ index_types first.ds)
        × (ds.taints ≡ first.ds.taints)
  compact_locked_datasets-IsDataset dataset_name id snap task first second others e taints types
        valid fits unique there locks =
      let (files, ds, done, opened, of, types_same, taints_same) =
        merge-IsDataset accepts accepts_all parts are_datasets few batches dataset_name id first
          second others e taints types valid fits in
      let enough : 2 ≤ length (datasets_of parts) =
        subst (λ ps. 2 ≤ length (datasets_of ps)) (sym e) (omega arith) in
      (
        files,
        ds,
        compact_locked_datasets-merged accepts dataset_name snap task (datasets_of parts) files
            (locked_datasets-there snap task.spec.locks (datasets_of parts) unique there locks)
            enough done,
        opened,
        of,
        types_same,
        taints_same,
      )
