-- ===== src/Tests/Databases.antt =====
-- libursa/Database.cpp and libursa/DatabaseConfig.cpp at concrete states.
use ursadb.Prelude.{
  ◌≤◌, ◌≡◌, refl, true, false, List, [], ◌∷◌, ◌++◌, leb, if◌then◌else◌, none, some, ok, err, arith,
  inl, inr, cannot_acquire_lock,
}
use mathlib.Core.Path.{subst}
use ursadb.Prelude.{Bool-cases}
use text.Mathlib.TextEquality.{eq_iff}
use Prim.Native.String.{String}
use text.Mathlib.Text.{◌==◌ as str_eq}
use ursadb.Database.Tasks.{
  DatabaseLock, dataset_lock, iterator_lock, Tasks, no_tasks, allocate_task, can_acquire,
  acquire_all, new_task,
}
use ursadb.Database.Holders.{holders}
use ursadb.Database.Exclusion.{
  with_task, starts, steps, allocated, Reachable-holders, allocate_task_refuses,
}
use ursadb.Database.Datasets.{Dataset, Datasets, deref, collect_garbage, contains_name}
use ursadb.Database.Garbage.{all_names, collect_garbage-deref}
use ursadb.Database.Iterators.{
  OnDiskIterator, Iterators, find_iterator, update_iterator, collect_stale_iterators,
}
use ursadb.Database.Stale.{find-update_iterator, collect_stale_iterators-locked}
use ursadb.Config.{query_max_edge, database_workers, get, set, InRange, set-InRange, can_set}

abbrev wanted : List DatabaseLock
wanted = dataset_lock "a" ∷ iterator_lock "b" ∷ []

abbrev one_task : Tasks
one_task = with_task no_tasks "compact" "client" 7 wanted

first_allocated : allocate_task no_tasks "compact" "client" 7 wanted ≡ ok (one_task, 1)
unfolding allocate_task acquire_all can_acquire
first_allocated = refl

Reachable-holders_example : holders (dataset_lock "a") one_task.tasks ≤ 1
Reachable-holders_example =
    Reachable-holders one_task
      (steps starts (allocated "compact" "client" 7 wanted 1 first_allocated)) (dataset_lock "a")

-- The second of two tasks has the locks.
abbrev two_tasks : Tasks
two_tasks = record {
  last_task_id = 2;
  tasks =
      (1, new_task 1 "client" "topology" 6 []) ∷ (2, new_task 2 "client" "compact" 7 wanted) ∷ [];
}

allocate_task_refuses_example :
    allocate_task two_tasks "index" "other" 8 ((dataset_lock "c" ∷ []) ++ dataset_lock "a" ∷ [])
    ≡ err cannot_acquire_lock
allocate_task_refuses_example =
    allocate_task_refuses two_tasks "index" "other" 8 (dataset_lock "c" ∷ []) [] (dataset_lock "a")
      1 2 (new_task 2 "client" "compact" 7 wanted) 0 refl refl

abbrev first_set : Dataset
first_set = record { address = 0; name = "set.a.db"; id = "a" }

abbrev two_sets : Datasets
two_sets = record {
  next_address = 2;
  loaded_datasets = first_set ∷ record { address = 1; name = "set.b.db"; id = "b" } ∷ [];
  working_datasets = 0 ∷ [];
}

first_deref : deref two_sets.loaded_datasets 0 ≡ some first_set
unfolding deref
first_deref = refl

no_such_name :
    (n : String)
    → contains_name (all_names two_sets.loaded_datasets) n ≡ true
    → str_eq "a" n ≡ false
unfolding contains_name
no_such_name n h = elim (Bool-cases (str_eq "set.a.db" n)) [
  | inl first ↦ subst (λ t. str_eq "a" t ≡ false) ((eq_iff "set.a.db" n).0 first) refl
  | inr not_first ↦ elim (Bool-cases (str_eq "set.b.db" n)) [
    | inl second ↦ subst (λ t. str_eq "a" t ≡ false) ((eq_iff "set.b.db" n).0 second) refl
    | inr neither ↦ absurd (ground arith)
  ]
]

collect_garbage-deref_example :
    deref (collect_garbage two_sets []).loaded_datasets 0 ≡ some first_set
collect_garbage-deref_example =
    collect_garbage-deref two_sets [] 0 first_set refl first_deref no_such_name

abbrev half_read : OnDiskIterator
half_read = record { total_files = 4; byte_offset = 10; file_offset = 2; last_read_time = 100 }

abbrev one_iterator : Iterators
one_iterator = ("b", half_read) ∷ []

is_found : find_iterator one_iterator "b" ≡ some half_read
unfolding find_iterator
is_found = refl

find-update_iterator_example : find_iterator (update_iterator one_iterator "b" 15 3) "b" ≡ (
    if leb half_read.total_files 3
    then none
    else some (record half_read { byte_offset = 15; file_offset = 3 }))
find-update_iterator_example = find-update_iterator one_iterator "b" 15 3 half_read is_found

collect_stale_iterators-locked_example :
    find_iterator (collect_stale_iterators 60 500 two_tasks.tasks one_iterator) "b"
    ≡ find_iterator one_iterator "b"
collect_stale_iterators-locked_example =
    collect_stale_iterators-locked 60 500 two_tasks.tasks one_iterator "b" 1 2
      (new_task 2 "client" "compact" 7 wanted) 1 refl refl

eight_set : set [] database_workers 8 ≡ ok (("database_workers", 8) ∷ [])
unfolding set can_set
eight_set = refl

default_edge : InRange query_max_edge (get [] query_max_edge)
unfolding get
default_edge = (omega arith, omega arith)

set-InRange_example : InRange query_max_edge (get (("database_workers", 8) ∷ []) query_max_edge)
set-InRange_example =
    set-InRange [] (("database_workers", 8) ∷ []) database_workers query_max_edge 8 (λ h. cc)
      default_edge eight_set
