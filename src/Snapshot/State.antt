-- ===== src/Snapshot/State.antt =====
-- The class `DatabaseSnapshot` (libursa/DatabaseSnapshot.cpp): its datasets and tasks, and the
-- execution of a query over them. The counters are left out.
use ursadb.Prelude.{
  Bool, true, false, List, [], ◌∷◌, ◌++◌, ℕ, length, if◌then◌else◌, Option, none, some, Result, ok,
  err, ◌>>=◌, no_such_dataset,
}
use Prim.Native.String.{String}
use text.Mathlib.Text.{◌==◌ as str_eq}
use ursadb.Config.{Settings}
use ursadb.Database.Tasks.{TaskSpec, dataset_lock, has_lock, estimate_work, add_progress}
use ursadb.Dataset.State.{OnDiskDataset, has_all_taints}
use ursadb.Dataset.State as Dataset
use ursadb.Query.Syntax.{Query}

pub record DatabaseSnapshot : Type 0 where
  pub config : Settings
  pub datasets : List OnDiskDataset
  pub tasks : List (ℕ × TaskSpec)

unfoldable pub find_dataset : List OnDiskDataset → String → Option OnDiskDataset
find_dataset [] name = none
find_dataset (ds ∷ datasets) name =
    if str_eq ds.id name then some ds else find_dataset datasets name

unfoldable pub find_datasets : List OnDiskDataset → List String → Result (List OnDiskDataset)
unfolding find_dataset
find_datasets all [] = ok []
find_datasets all (dsname ∷ dsnames) = elim (find_dataset all dsname) [
  | none ↦ err no_such_dataset
  | some dsptr ↦ find_datasets all dsnames >>= λ rest. ok (dsptr ∷ rest)
]

-- `datasets_to_query`
unfoldable pub datasets_to_query : DatabaseSnapshot → List String → Result (List OnDiskDataset)
unfolding find_datasets
datasets_to_query snap [] = ok snap.datasets
datasets_to_query snap (dsname ∷ dsnames) = find_datasets snap.datasets (dsname ∷ dsnames)

-- What is pushed to `out`, and the task's progress.
unfoldable pub execute_each :
    List OnDiskDataset → Query → List String → TaskSpec → Result (List (List ℕ) × TaskSpec)
execute_each [] query taints task = ok ([], task)
execute_each (ds ∷ datasets) query taints task =
    let later = execute_each datasets query taints (add_progress 1 task) in
    elim (has_all_taints ds taints) [
      | true ↦ Dataset.execute ds query >>= λ here. later >>= λ rest. ok (here ++ rest.0, rest.1)
      | false ↦ later
    ]

unfoldable pub execute :
    DatabaseSnapshot
    → Query
    → List String
    → List String
    → TaskSpec
    → Result (List (List ℕ) × TaskSpec)
unfolding datasets_to_query execute_each
execute snap query taints datasets task = datasets_to_query snap datasets >>= λ queried.
    execute_each queried query taints (estimate_work (length queried) task)

unfoldable pub is_dataset_locked : List (ℕ × TaskSpec) → String → Bool
is_dataset_locked [] dataset_id = false
is_dataset_locked ((k, task) ∷ tasks) dataset_id =
    if has_lock task (dataset_lock dataset_id) then true else is_dataset_locked tasks dataset_id
