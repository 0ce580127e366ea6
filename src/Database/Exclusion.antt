-- ===== src/Database/Exclusion.antt =====
-- No two tasks of a database (libursa/Database.cpp) hold the same lock.
use ursadb.Prelude.{
  ℕ, ◌+◌, ◌≤◌, ◌≡◌, refl, false, List, [], ◌∷◌, u64, Result, ok, err, arith, Bool-cases, inl, inr,
  cannot_acquire_lock, some, get_elem?,
}
use mathlib.Core.Path.{subst, sym, ap, ◌∙◌}
use ursadb.Prelude.{Result-cases, Error, ◌++◌}
use Prim.Native.String.{String}
use ursadb.Database.Tasks.{
  DatabaseLock, TaskSpec, Tasks, no_tasks, can_acquire, acquire_all, emplace, new_task,
  allocate_task, erase_task, update_key,
}
use ursadb.Database.Held.{can_acquire-held}
use ursadb.Database.Holders.{
  emplace-holders, erase_key-holders, update_key-holders, holders, Write, apply,
}

-- A step of the tasks of a database: a task is allocated, a worker writes to its task, or a task is
-- erased when it is committed or has failed.
pub data Step : Tasks → Tasks → Type 0 where
  allocated :
      {db db' : Tasks} (request conn_id : String) (epoch_ms : ℕ) (locks : List DatabaseLock)
      (id : ℕ)
      → allocate_task db request conn_id epoch_ms locks ≡ ok (db', id)
      → Step db db'
  wrote :
      {db : Tasks} (id : ℕ) (w : Write)
      → Step db (record db { tasks = update_key db.tasks id (apply w) })
  erased : {db : Tasks} (id : ℕ) → Step db (erase_task db id)

pub data Reachable : Tasks → Type 0 where
  starts : Reachable no_tasks
  steps : {db db' : Tasks} → Reachable db → Step db db' → Reachable db'

-- What `allocate_task` makes of the database.
abbrev pub with_task : Tasks → String → String → ℕ → List DatabaseLock → Tasks
with_task db request conn_id epoch_ms locks = record {
  last_task_id = u64 (db.last_task_id + 1);
  tasks =
      emplace db.tasks (u64 (db.last_task_id + 1))
        (new_task (u64 (db.last_task_id + 1)) conn_id request epoch_ms locks);
}

allocate_task-free :
    (db : Tasks) (request conn_id : String) (epoch_ms : ℕ) (locks : List DatabaseLock)
    → acquire_all db.tasks locks ≡ ok tt
    → allocate_task db request conn_id epoch_ms locks
      ≡ ok (with_task db request conn_id epoch_ms locks, u64 (db.last_task_id + 1))
unfolding allocate_task
allocate_task-free db request conn_id epoch_ms locks e = rw (e, allocate_task) refl

allocate_task-err :
    (db : Tasks) (request conn_id : String) (epoch_ms : ℕ) (locks : List DatabaseLock)
    (thrown : Error)
    → acquire_all db.tasks locks ≡ err thrown
    → allocate_task db request conn_id epoch_ms locks ≡ err thrown
unfolding allocate_task
allocate_task-err db request conn_id epoch_ms locks thrown e = rw (e, allocate_task) refl

abbrev tasks_of : Result (Tasks × ℕ) → List (ℕ × TaskSpec)
tasks_of (ok (db, id)) = db.tasks
tasks_of (err e) = []

allocate_task-ok :
    (db db' : Tasks) (request conn_id : String) (epoch_ms : ℕ) (locks : List DatabaseLock) (id : ℕ)
    → allocate_task db request conn_id epoch_ms locks ≡ ok (db', id)
    → (acquire_all db.tasks locks ≡ ok tt)
      × ((with_task db request conn_id epoch_ms locks).tasks ≡ db'.tasks)
allocate_task-ok db db' request conn_id epoch_ms locks id h =
    elim (Result-cases (acquire_all db.tasks locks)) [
      | inl (done, e) ↦
          (e, ap tasks_of (sym (allocate_task-free db request conn_id epoch_ms locks e) ∙ h))
      | inr (thrown, e) ↦
          absurd (let refused = allocate_task-err db request conn_id epoch_ms locks thrown e in cc)
    ]

Step-holders :
    {db db' : Tasks}
    → Step db db'
    → (lock : DatabaseLock) → holders lock db.tasks ≤ 1
    → holders lock db'.tasks ≤ 1
unfolding erase_task
Step-holders {db} (allocated request conn_id epoch_ms locks id h) lock few =
    let (free, e) = allocate_task-ok _ _ request conn_id epoch_ms locks id h in
    subst (λ ts. holders lock ts ≤ 1) e (emplace-holders db.tasks _ _ lock free few)
Step-holders {db} (wrote id w) lock few = omega (arith, update_key-holders w db.tasks id lock)
Step-holders {db} (erased id) lock few = omega (arith, erase_key-holders db.tasks id lock)

-- In every state that a database reaches, at most one task holds a given lock.
pub Reachable-holders :
    (db : Tasks) → Reachable db → (lock : DatabaseLock) → holders lock db.tasks ≤ 1
Reachable-holders db starts lock = omega arith
Reachable-holders db (steps before step) lock =
    Step-holders step lock (Reachable-holders _ before lock)

acquire_all-taken :
    (tasks : List (ℕ × TaskSpec)) (before after : List DatabaseLock) (lock : DatabaseLock)
    → can_acquire tasks lock ≡ false
    → acquire_all tasks (before ++ lock ∷ after) ≡ err cannot_acquire_lock
unfolding acquire_all
acquire_all-taken tasks [] after lock h = rw (h, acquire_all) refl
acquire_all-taken tasks (other ∷ before) after lock h =
    elim (Bool-cases (can_acquire tasks other)) [
      | inl free ↦ rw (free, acquire_all) (acquire_all-taken tasks before after lock h)
      | inr taken ↦ rw (taken, acquire_all) refl
    ]

-- A task is refused if one of the locks that it asks for is among the locks of some task, wherever
-- that task stands among the tasks, and the lock in either list.
pub allocate_task_refuses :
    (db : Tasks) (request conn_id : String) (epoch_ms : ℕ) (before after : List DatabaseLock)
    (lock : DatabaseLock) (i held_id : ℕ) (holder : TaskSpec) (j : ℕ)
    → get_elem? db.tasks i ≡ some (held_id, holder)
    → get_elem? holder.locks j ≡ some lock
    → allocate_task db request conn_id epoch_ms (before ++ lock ∷ after) ≡ err cannot_acquire_lock
allocate_task_refuses db request conn_id epoch_ms before after lock i held_id holder j at listed =
    allocate_task-err db request conn_id epoch_ms _ cannot_acquire_lock (
      acquire_all-taken db.tasks before after lock
        (can_acquire-held db.tasks i held_id holder j lock at listed))
