-- ===== src/Database/Holders.antt =====
-- How many tasks of a database (libursa/Database.cpp) hold a lock, and what changes that.
use ursadb.Prelude.{
  ℕ, ◌+◌, ◌≤◌, ◌≡◌, refl, true, List, [], ◌∷◌, if◌then◌else◌, ok, arith, Bool-cases, Option-cases,
  inl, inr,
}
use mathlib.Core.Path.{subst}
use Prim.Native.String.{String}
use text.Mathlib.Text.{◌==◌ as str_eq}
use text.Mathlib.TextEquality.{eq_iff}
use ursadb.Database.Tasks.{
  DatabaseLock, dataset_lock, iterator_lock, TaskSpec, has_dataset_lock, has_iterator_lock,
  has_lock, estimate_work, set_work, add_progress, can_acquire, acquire_all, find_task, emplace,
  erase_key, update_key,
}

-- How many tasks hold a lock.
abbrev pub holders : DatabaseLock → List (ℕ × TaskSpec) → ℕ
holders lock [] = 0
holders lock ((k, task) ∷ tasks) = (if has_lock task lock then 1 else 0) + holders lock tasks

can_acquire-holders :
    (tasks : List (ℕ × TaskSpec)) (lock : DatabaseLock)
    → can_acquire tasks lock ≡ true
    → holders lock tasks ≡ 0
unfolding can_acquire
can_acquire-holders [] lock h = refl
can_acquire-holders ((k, task) ∷ tasks) lock h = ground (arith, can_acquire-holders tasks lock)

acquire_all-cons :
    (tasks : List (ℕ × TaskSpec)) (lock : DatabaseLock) (locks : List DatabaseLock)
    → acquire_all tasks (lock ∷ locks) ≡ ok tt
    → (can_acquire tasks lock ≡ true) × (acquire_all tasks locks ≡ ok tt)
unfolding acquire_all
acquire_all-cons tasks lock locks h = ground arith

-- A task that holds the lock of one of the targets it asks for holds one that could be acquired.
acquired_dataset :
    (tasks : List (ℕ × TaskSpec)) (locks : List DatabaseLock) (n : String)
    → acquire_all tasks locks ≡ ok tt
    → has_dataset_lock locks n ≡ true
    → can_acquire tasks (dataset_lock n) ≡ true
unfolding has_dataset_lock
acquired_dataset tasks [] n h k = cc
acquired_dataset tasks (dataset_lock m ∷ locks) n h k =
    let (here, there) = acquire_all-cons tasks (dataset_lock m) locks h in
    elim (Bool-cases (str_eq m n)) [
      | inl same ↦ subst (λ t. can_acquire tasks (dataset_lock t) ≡ true) ((eq_iff m n).0 same) here
      | inr other ↦ acquired_dataset tasks locks n there (ground arith)
    ]
acquired_dataset tasks (iterator_lock m ∷ locks) n h k =
    acquired_dataset tasks locks n (acquire_all-cons tasks (iterator_lock m) locks h).1 k

acquired_iterator :
    (tasks : List (ℕ × TaskSpec)) (locks : List DatabaseLock) (n : String)
    → acquire_all tasks locks ≡ ok tt
    → has_iterator_lock locks n ≡ true
    → can_acquire tasks (iterator_lock n) ≡ true
unfolding has_iterator_lock
acquired_iterator tasks [] n h k = cc
acquired_iterator tasks (iterator_lock m ∷ locks) n h k =
    let (here, there) = acquire_all-cons tasks (iterator_lock m) locks h in
    elim (Bool-cases (str_eq m n)) [
      | inl same ↦
          subst (λ t. can_acquire tasks (iterator_lock t) ≡ true) ((eq_iff m n).0 same) here
      | inr other ↦ acquired_iterator tasks locks n there (ground arith)
    ]
acquired_iterator tasks (dataset_lock m ∷ locks) n h k =
    acquired_iterator tasks locks n (acquire_all-cons tasks (dataset_lock m) locks h).1 k

acquired :
    (tasks : List (ℕ × TaskSpec)) (task : TaskSpec) (lock : DatabaseLock)
    → acquire_all tasks task.locks ≡ ok tt
    → has_lock task lock ≡ true
    → holders lock tasks ≡ 0
unfolding has_lock
acquired tasks task (dataset_lock n) h k =
    can_acquire-holders tasks (dataset_lock n) (acquired_dataset tasks task.locks n h k)
acquired tasks task (iterator_lock n) h k =
    can_acquire-holders tasks (iterator_lock n) (acquired_iterator tasks task.locks n h k)

pub emplace-holders :
    (tasks : List (ℕ × TaskSpec)) (id : ℕ) (task : TaskSpec) (lock : DatabaseLock)
    → acquire_all tasks task.locks ≡ ok tt
    → holders lock tasks ≤ 1
    → holders lock (emplace tasks id task) ≤ 1
unfolding emplace
emplace-holders tasks id task lock h few = elim (Option-cases (find_task tasks id)) [
  | inr (old, e) ↦ rw (e, emplace) few
  | inl fresh ↦ rw (fresh, emplace) (ground (arith, acquired tasks task lock h))
]

pub erase_key-holders :
    (tasks : List (ℕ × TaskSpec)) (id : ℕ) (lock : DatabaseLock)
    → holders lock (erase_key tasks id) ≤ holders lock tasks
unfolding erase_key
erase_key-holders [] id lock = omega arith
erase_key-holders ((k, task) ∷ tasks) id lock = ground (arith, erase_key-holders tasks id lock)

-- The methods of a `TaskSpec` that write.
pub data Write : Type 0 where
  estimate set progress : ℕ → Write

unfoldable pub apply : Write → TaskSpec → TaskSpec
unfolding estimate_work set_work add_progress
apply (estimate n) task = estimate_work n task
apply (set n) task = set_work n task
apply (progress n) task = add_progress n task

apply-has_lock :
    (w : Write) (task : TaskSpec) (lock : DatabaseLock)
    → has_lock (apply w task) lock ≡ has_lock task lock
unfolding apply has_lock estimate_work set_work add_progress
apply-has_lock (estimate n) task (dataset_lock m) = refl
apply-has_lock (estimate n) task (iterator_lock m) = refl
apply-has_lock (set n) task (dataset_lock m) = refl
apply-has_lock (set n) task (iterator_lock m) = refl
apply-has_lock (progress n) task (dataset_lock m) = refl
apply-has_lock (progress n) task (iterator_lock m) = refl

pub update_key-holders :
    (w : Write) (tasks : List (ℕ × TaskSpec)) (id : ℕ) (lock : DatabaseLock)
    → holders lock (update_key tasks id (apply w)) ≡ holders lock tasks
unfolding update_key
update_key-holders w [] id lock = refl
update_key-holders w ((k, task) ∷ tasks) id lock =
    ground (arith, update_key-holders w tasks id lock, apply-has_lock w task lock)
