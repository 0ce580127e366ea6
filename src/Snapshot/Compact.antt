-- ===== src/Snapshot/Compact.antt =====
-- `compact_locked_datasets` and `internal_compact` (libursa/DatabaseSnapshot.cpp), and the changes of
-- a `Task` (libursa/Task.h). The name that is allocated for the merged dataset is an argument.
use ursadb.Prelude.{
  ℕ, Bool, true, false, List, [], ◌∷◌, ◌++◌, ltb, length, Option, none, some, Result, ok, err,
  ◌>>=◌, locked_dataset_missing,
}
use Prim.Native.String.{String}
use ursadb.Database.Tasks.{DatabaseLock, dataset_lock, iterator_lock, TaskSpec}
use ursadb.Dataset.Merge.{MergedFiles, merge}
use ursadb.Dataset.State.{OnDiskDataset}
use ursadb.Snapshot.State.{DatabaseSnapshot, find_dataset}

pub data DbChangeType : Type 0 where
  insert_change drop_change reload_change toggle_taint_change : DbChangeType
  new_iterator_change update_iterator_change config_change : DbChangeType

pub record DbChange : Type 0 where
  pub type : DbChangeType
  pub obj_name : String
  pub parameter : String

pub record Task : Type 0 where
  pub spec : TaskSpec
  pub changes : List DbChange

unfoldable pub change : DbChange → Task → Task
change new task = record task { changes = task.changes ++ new ∷ [] }

abbrev pub db_change : DbChangeType → String → DbChange
db_change type obj_name = record { type = type; obj_name = obj_name; parameter = "" }

-- The datasets that the task has locked.
unfoldable pub locked_datasets : DatabaseSnapshot → List DatabaseLock → Result (List OnDiskDataset)
unfolding find_dataset
locked_datasets snap [] = ok []
locked_datasets snap (iterator_lock target ∷ locks) = locked_datasets snap locks
locked_datasets snap (dataset_lock target ∷ locks) = elim (find_dataset snap.datasets target) [
  | none ↦ err locked_dataset_missing
  | some ds ↦ locked_datasets snap locks >>= λ datasets. ok (ds ∷ datasets)
]

unfoldable pub drop_each : List OnDiskDataset → Task → Task
unfolding change
drop_each [] task = task
drop_each (ds ∷ datasets) task = drop_each datasets (change (db_change drop_change ds.id) task)

module _ (accepts : List ℕ → List ℕ → Bool) (dataset_name : String) where
  -- The files that are written, if there is anything to merge, and the task.
  unfoldable pub internal_compact : Task → List OnDiskDataset → Result (Option MergedFiles × Task)
  unfolding drop_each
  internal_compact task datasets = elim (ltb (length datasets) 2) [
    | true ↦ ok (none, task)
    | false ↦ merge accepts datasets >>= λ files.
        ok (some files, change (db_change insert_change dataset_name) (drop_each datasets task))
  ]

  unfoldable pub compact_locked_datasets :
      DatabaseSnapshot → Task → Result (Option MergedFiles × Task)
  unfolding locked_datasets internal_compact
  compact_locked_datasets snap task =
      locked_datasets snap task.spec.locks >>= λ datasets. internal_compact task datasets
