-- ===== src/Database/Held.antt =====
-- A lock that a task of a database (libursa/Database.cpp) holds cannot be acquired, wherever the task
-- stands, and wherever the lock stands in the task's list (libursa/Task.cpp).
use ursadb.Prelude.{
  ℕ, zero, suc, ◌≡◌, refl, true, false, List, [], ◌∷◌, Option, none, some, ap, get_elem?, arith,
  Bool-cases, inl, inr,
}
use mathlib.Core.Path.{subst, sym}
use Prim.Native.String.{String}
use text.Mathlib.Text.{◌==◌ as str_eq}
use text.Mathlib.TextEquality.{eq_iff}
use ursadb.Database.Tasks.{
  DatabaseLock, dataset_lock, iterator_lock, TaskSpec, has_dataset_lock, has_iterator_lock,
  has_lock, can_acquire,
}

pub str_eq_self : (s : String) → str_eq s s ≡ true
str_eq_self s = (eq_iff s s).1 refl

abbrev lock_or : DatabaseLock → Option DatabaseLock → DatabaseLock
lock_or other none = other
lock_or other (some lock) = lock

dataset_lock-Listed :
    (locks : List DatabaseLock) (j : ℕ) (n : String)
    → get_elem? locks j ≡ some (dataset_lock n)
    → has_dataset_lock locks n ≡ true
unfolding has_dataset_lock
dataset_lock-Listed [] j n h = cc
dataset_lock-Listed (lock ∷ locks) zero n h =
    let same : lock ≡ dataset_lock n = ap (lock_or lock) h in
    rw same (rw (str_eq_self n, has_dataset_lock) refl)
dataset_lock-Listed (dataset_lock m ∷ locks) (suc j) n h =
    ground (arith, dataset_lock-Listed locks j n h)
dataset_lock-Listed (iterator_lock m ∷ locks) (suc j) n h = dataset_lock-Listed locks j n h

iterator_lock-Listed :
    (locks : List DatabaseLock) (j : ℕ) (n : String)
    → get_elem? locks j ≡ some (iterator_lock n)
    → has_iterator_lock locks n ≡ true
unfolding has_iterator_lock
iterator_lock-Listed [] j n h = cc
iterator_lock-Listed (lock ∷ locks) zero n h =
    let same : lock ≡ iterator_lock n = ap (lock_or lock) h in
    rw same (rw (str_eq_self n, has_iterator_lock) refl)
iterator_lock-Listed (iterator_lock m ∷ locks) (suc j) n h =
    ground (arith, iterator_lock-Listed locks j n h)
iterator_lock-Listed (dataset_lock m ∷ locks) (suc j) n h = iterator_lock-Listed locks j n h

pub has_lock-Listed :
    (task : TaskSpec) (j : ℕ) (lock : DatabaseLock)
    → get_elem? task.locks j ≡ some lock
    → has_lock task lock ≡ true
unfolding has_lock
has_lock-Listed task j (dataset_lock n) h = dataset_lock-Listed task.locks j n h
has_lock-Listed task j (iterator_lock n) h = iterator_lock-Listed task.locks j n h

abbrev pub task_or : TaskSpec → Option (ℕ × TaskSpec) → TaskSpec
task_or other none = other
task_or other (some (id, task)) = task

pub can_acquire-held :
    (tasks : List (ℕ × TaskSpec)) (i id : ℕ) (task : TaskSpec) (j : ℕ) (lock : DatabaseLock)
    → get_elem? tasks i ≡ some (id, task)
    → get_elem? task.locks j ≡ some lock
    → can_acquire tasks lock ≡ false
unfolding can_acquire
can_acquire-held [] i id task j lock h k = cc
can_acquire-held ((id', first) ∷ tasks) zero id task j lock h k =
    let same : first ≡ task = ap (task_or first) h in
    let held : has_lock first lock ≡ true =
      subst (λ t. has_lock t lock ≡ true) (sym same) (has_lock-Listed task j lock k) in
    rw (held, can_acquire) refl
can_acquire-held ((id', first) ∷ tasks) (suc i) id task j lock h k =
    elim (Bool-cases (has_lock first lock)) [
      | inl held ↦ rw (held, can_acquire) refl
      | inr free ↦ rw (free, can_acquire) (can_acquire-held tasks i id task j lock h k)
    ]
