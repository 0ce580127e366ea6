-- ===== src/Snapshot/Locked.antt =====
-- Which datasets a task has locked, as compacting them (libursa/DatabaseSnapshot.cpp) finds them.
use ursadb.Prelude.{
  ℕ, zero, suc, ◌≡◌, refl, sym, ap, true, false, List, [], ◌∷◌, All, Option, none, some, get_elem?,
  ok,
}
use mathlib.Core.Path.{subst}
use Prim.Native.String.{String}
use text.Mathlib.Text.{◌==◌ as str_eq}
use text.Mathlib.TextEquality.{eq_iff}
use ursadb.Database.Tasks.{DatabaseLock, dataset_lock, iterator_lock}
use ursadb.Dataset.State.{OnDiskDataset}
use ursadb.Snapshot.Compact.{locked_datasets}
use ursadb.Snapshot.State.{DatabaseSnapshot, find_dataset}

-- The datasets that some locks are of, in their order.
abbrev pub targets : List DatabaseLock → List String
targets [] = []
targets (dataset_lock target ∷ locks) = target ∷ targets locks
targets (iterator_lock target ∷ locks) = targets locks

abbrev pub ids_of : List OnDiskDataset → List String
ids_of [] = []
ids_of (ds ∷ datasets) = ds.id ∷ ids_of datasets

-- No two datasets of a snapshot have the same id.
abbrev pub UniqueIds : List OnDiskDataset → Type 0
UniqueIds [] = Unit
UniqueIds (ds ∷ datasets) =
    All (λ other. str_eq ds.id other.id ≡ false) datasets × UniqueIds datasets

-- The dataset stands somewhere in the list.
abbrev pub StandsIn : List OnDiskDataset → OnDiskDataset → Type 0
StandsIn all ds = (i : ℕ) × (get_elem? all i ≡ some ds)

abbrev dataset_or : OnDiskDataset → Option OnDiskDataset → OnDiskDataset
dataset_or other none = other
dataset_or other (some ds) = ds

All-at :
    (P : OnDiskDataset → Type 0) (all : List OnDiskDataset) (i : ℕ) (ds : OnDiskDataset)
    → All P all
    → get_elem? all i ≡ some ds
    → P ds
All-at P [] i ds h e = cc
All-at P (first ∷ all) zero ds h e = subst P (ap (dataset_or first) e) h.0
All-at P (first ∷ all) (suc i) ds h e = All-at P all i ds h.1 e

find_dataset-there :
    (all : List OnDiskDataset) (i : ℕ) (ds : OnDiskDataset)
    → UniqueIds all
    → get_elem? all i ≡ some ds
    → find_dataset all ds.id ≡ some ds
unfolding find_dataset
find_dataset-there [] i ds unique e = cc
find_dataset-there (first ∷ all) zero ds unique e =
    let same : first ≡ ds = ap (dataset_or first) e in
    let here : str_eq first.id ds.id ≡ true =
      (eq_iff first.id ds.id).1 (ap (λ d. OnDiskDataset.id d) same) in
    rw (here, find_dataset) e
find_dataset-there (first ∷ all) (suc i) ds unique e =
    let other = All-at (λ d. str_eq first.id d.id ≡ false) all i ds unique.0 e in
    rw (other, find_dataset) (find_dataset-there all i ds unique.1 e)

locked_datasets-step :
    (snap : DatabaseSnapshot) (locks : List DatabaseLock) (target : String) (ds : OnDiskDataset)
    (datasets : List OnDiskDataset)
    → find_dataset snap.datasets target ≡ some ds
    → locked_datasets snap locks ≡ ok datasets
    → locked_datasets snap (dataset_lock target ∷ locks) ≡ ok (ds ∷ datasets)
unfolding locked_datasets
locked_datasets-step snap locks target ds datasets found rest =
    rw (found, locked_datasets) (rw rest refl)

abbrev first_or : String → List String → String
first_or other [] = other
first_or other (name ∷ names) = name

abbrev rest_of : List String → List String
rest_of [] = []
rest_of (name ∷ names) = names

pub locked_datasets-there :
    (snap : DatabaseSnapshot) (locks : List DatabaseLock) (datasets : List OnDiskDataset)
    → UniqueIds snap.datasets
    → All (StandsIn snap.datasets) datasets
    → targets locks ≡ ids_of datasets
    → locked_datasets snap locks ≡ ok datasets
unfolding locked_datasets
locked_datasets-there snap [] [] unique h e = refl
locked_datasets-there snap [] (ds ∷ datasets) unique h e = cc
locked_datasets-there snap (iterator_lock target ∷ locks) datasets unique h e =
    locked_datasets-there snap locks datasets unique h e
locked_datasets-there snap (dataset_lock target ∷ locks) [] unique h e = cc
locked_datasets-there snap (dataset_lock target ∷ locks) (ds ∷ datasets) unique h e =
    let same : ds.id ≡ target = sym (ap (first_or target) e) in
    locked_datasets-step snap locks target ds datasets
      (subst (λ n. find_dataset snap.datasets n ≡ some ds) same
        (find_dataset-there snap.datasets h.0.0 ds unique h.0.1))
      (locked_datasets-there snap locks datasets unique h.1 (ap rest_of e))
