-- ===== src/Snapshot/CanMerge.antt =====
-- What datasets are to be for `OnDiskDataset::merge`, when `find_compact_candidate`
-- (libursa/DatabaseSnapshot.cpp) chooses them.
use ursadb.Prelude.{
  ℕ, zero, suc, ◌≤◌, ◌≡◌, refl, sym, ap, ◌∙◌, Bool, true, false, List, [], ◌∷◌, length, All, u64,
  arith, some, get_elem?, Bool-cases, inl, inr,
}
use mathlib.Core.List.{Mem}
use mathlib.Core.Path.{subst}
use Prim.Native.String.{String}
use ursadb.Config.{get, merge_max_datasets, merge_max_files}
use ursadb.Core.{IndexType}
use ursadb.Database.Datasets.{contains_name}
use ursadb.Database.Held.{has_lock-Listed, task_or}
use ursadb.Database.Tasks.{TaskSpec, dataset_lock, has_lock}
use ursadb.Dataset.Compatible.{merge_accepts, merge_accepts-same}
use ursadb.Dataset.State.{OnDiskDataset, index_types}
use ursadb.Snapshot.Classes.{class_of-taints, class_of-types}
use ursadb.Snapshot.Compatible.{class_of}
use ursadb.Snapshot.Groups.{file_total}
use ursadb.Snapshot.State.{DatabaseSnapshot, is_dataset_locked}

-- The lock of the dataset is among the locks of no task.
abbrev pub IsFree : List (ℕ × TaskSpec) → OnDiskDataset → Type 0
IsFree tasks ds =
    (i id : ℕ) (task : TaskSpec) (j : ℕ)
    → get_elem? tasks i ≡ some (id, task)
    → ¬ (get_elem? task.locks j ≡ some (dataset_lock ds.id))

-- The datasets are of the snapshot, none of them is locked, they have the same taints and types of
-- indexes, so that `merge` accepts them, there are two of them or more, and they stay within both limits.
pub record CanMerge (snap : DatabaseSnapshot) (chosen : List OnDiskDataset) : Type 0 where
  pub types : List IndexType
  pub tainted : String → Bool
  pub members :
      All
        (λ ds.
          Mem ds snap.datasets
          × (index_types ds ≡ types)
          × ((taint : String) → contains_name ds.taints taint ≡ tainted taint)
          × IsFree snap.tasks ds)
        chosen
  pub accepted : merge_accepts chosen ≡ true
  pub enough : 2 ≤ length chosen
  pub few : length chosen ≤ get snap.config merge_max_datasets
  pub small : u64 (file_total chosen) ≤ get snap.config merge_max_files

is_dataset_locked-held :
    (tasks : List (ℕ × TaskSpec)) (n : String) (i id : ℕ) (task : TaskSpec) (j : ℕ)
    → get_elem? tasks i ≡ some (id, task)
    → get_elem? task.locks j ≡ some (dataset_lock n)
    → is_dataset_locked tasks n ≡ true
unfolding is_dataset_locked
is_dataset_locked-held [] n i id task j h k = cc
is_dataset_locked-held ((id', first) ∷ tasks) n zero id task j h k =
    let held : has_lock first (dataset_lock n) ≡ true =
      subst (λ t. has_lock t (dataset_lock n) ≡ true) (sym (ap (task_or first) h))
        (has_lock-Listed task j (dataset_lock n) k) in
    rw (held, is_dataset_locked) refl
is_dataset_locked-held ((id', first) ∷ tasks) n (suc i) id task j h k =
    elim (Bool-cases (has_lock first (dataset_lock n))) [
      | inl held ↦ rw (held, is_dataset_locked) refl
      | inr free ↦ rw (free, is_dataset_locked) (is_dataset_locked-held tasks n i id task j h k)
    ]

unlocked-IsFree :
    (tasks : List (ℕ × TaskSpec)) (ds : OnDiskDataset)
    → is_dataset_locked tasks ds.id ≡ false
    → IsFree tasks ds
unlocked-IsFree tasks ds free i id task j h k =
    let locked = is_dataset_locked-held tasks ds.id i id task j h k in cc

-- A dataset of a class that is not locked.
abbrev pub Chooses : DatabaseSnapshot → List String → OnDiskDataset → Type 0
Chooses snap key ds =
    (Mem ds snap.datasets × (class_of ds ≡ key)) × (is_dataset_locked snap.tasks ds.id ≡ false)

module _ (snap : DatabaseSnapshot) (key : List String) (first : OnDiskDataset)
    (same : class_of first ≡ key) where
  members-of_class :
      (chosen : List OnDiskDataset)
      → All (Chooses snap key) chosen
      → All
          (λ ds.
            Mem ds snap.datasets
            × (index_types ds ≡ index_types first)
            × ((taint : String) → contains_name ds.taints taint ≡ contains_name first.taints taint)
            × IsFree snap.tasks ds)
          chosen
  members-of_class [] h = tt
  members-of_class (ds ∷ chosen) h =
      let e = h.0.0.1 ∙ sym same in
      (
        (
          h.0.0.0,
          class_of-types ds first e,
          λ taint. class_of-taints ds first taint e,
          unlocked-IsFree snap.tasks ds h.0.1,
        ),
        members-of_class chosen h.1,
      )

  class-taints :
      (chosen : List OnDiskDataset)
      → All (Chooses snap key) chosen
      → All (λ ds. (t : String) → contains_name ds.taints t ≡ contains_name first.taints t) chosen
  class-taints [] h = tt
  class-taints (ds ∷ chosen) h =
      (λ t. class_of-taints ds first t (h.0.0.1 ∙ sym same), class-taints chosen h.1)

  class-types :
      (chosen : List OnDiskDataset)
      → All (Chooses snap key) chosen
      → All (λ ds. index_types ds ≡ index_types first) chosen
  class-types [] h = tt
  class-types (ds ∷ chosen) h =
      (class_of-types ds first (h.0.0.1 ∙ sym same), class-types chosen h.1)

pub Chooses-CanMerge :
    (snap : DatabaseSnapshot) (key : List String) (chosen : List OnDiskDataset)
    → All (Chooses snap key) chosen
    → 2 ≤ length chosen
    → length chosen ≤ get snap.config merge_max_datasets
    → u64 (file_total chosen) ≤ get snap.config merge_max_files
    → CanMerge snap chosen
Chooses-CanMerge snap key [] h enough few small = absurd (omega (arith, enough))
Chooses-CanMerge snap key (first ∷ chosen) h enough few small = record {
  types = index_types first;
  tainted = contains_name first.taints;
  members = members-of_class snap key first h.0.0.1 (first ∷ chosen) h;
  accepted =
      merge_accepts-same first chosen (class-taints snap key first h.0.0.1 chosen h.1)
        (class-types snap key first h.0.0.1 chosen h.1);
  enough = enough;
  few = few;
  small = small;
}
