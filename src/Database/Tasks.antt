-- ===== src/Database/Tasks.antt =====
-- The tasks of a `Database` (libursa/Database.cpp), their `TaskSpec`s (libursa/Task.h,
-- libursa/Task.cpp) and locks (libursa/DatabaseLock.h). A method that changes the object returns it.
-- Log messages are left out, and the clock is read by the caller.
use ursadb.Prelude.{
  ℕ, ◌+◌, Bool, true, false, ◌||◌, List, [], ◌∷◌, ◌==◌, if◌then◌else◌, Option, none, some, u64,
  Result, ok, err, ◌>>◌, guard, cannot_acquire_lock, no_such_task,
}
use Prim.Native.String.{String}
use text.Mathlib.Text.{◌==◌ as str_eq}

pub data DatabaseLock : Type 0 where
  dataset_lock : String → DatabaseLock
  iterator_lock : String → DatabaseLock

unfoldable pub describe_lock : DatabaseLock → String
describe_lock (dataset_lock target) = target
describe_lock (iterator_lock target) = target

pub record TaskSpec : Type 0 where
  pub id : ℕ
  pub conn_id : String
  pub request_str : String
  pub epoch_ms : ℕ
  pub work_estimated : ℕ
  pub work_done : ℕ
  pub locks : List DatabaseLock

-- The two versions of `has_typed_lock`.
unfoldable pub has_dataset_lock : List DatabaseLock → String → Bool
has_dataset_lock [] other = false
has_dataset_lock (dataset_lock target ∷ locks) other =
    str_eq target other || has_dataset_lock locks other
has_dataset_lock (iterator_lock target ∷ locks) other = has_dataset_lock locks other

unfoldable pub has_iterator_lock : List DatabaseLock → String → Bool
has_iterator_lock [] other = false
has_iterator_lock (dataset_lock target ∷ locks) other = has_iterator_lock locks other
has_iterator_lock (iterator_lock target ∷ locks) other =
    str_eq target other || has_iterator_lock locks other

unfoldable pub has_lock : TaskSpec → DatabaseLock → Bool
unfolding has_dataset_lock has_iterator_lock
has_lock task (dataset_lock other) = has_dataset_lock task.locks other
has_lock task (iterator_lock other) = has_iterator_lock task.locks other

unfoldable pub estimate_work : ℕ → TaskSpec → TaskSpec
estimate_work new_estimation task = record task { work_estimated = new_estimation }

unfoldable pub set_work : ℕ → TaskSpec → TaskSpec
set_work new_work task = record task { work_done = new_work }

unfoldable pub add_progress : ℕ → TaskSpec → TaskSpec
add_progress done_units task = record task { work_done = u64 (task.work_done + done_units) }

-- `last_task_id` and `tasks` of the database. The map is the list of its pairs.
pub record Tasks : Type 0 where
  pub last_task_id : ℕ
  pub tasks : List (ℕ × TaskSpec)

abbrev pub no_tasks : Tasks
no_tasks = record { last_task_id = 0; tasks = [] }

unfoldable pub can_acquire : List (ℕ × TaskSpec) → DatabaseLock → Bool
can_acquire [] newlock = true
can_acquire ((k, task) ∷ tasks) newlock =
    if has_lock task newlock then false else can_acquire tasks newlock

-- The loop over `locks` in `allocate_task`.
unfoldable pub acquire_all : List (ℕ × TaskSpec) → List DatabaseLock → Result (Unit {0})
acquire_all tasks [] = ok tt
acquire_all tasks (lock ∷ locks) =
    guard (can_acquire tasks lock) cannot_acquire_lock >> acquire_all tasks locks

unfoldable pub find_task : List (ℕ × TaskSpec) → ℕ → Option TaskSpec
find_task [] id = none
find_task ((k, task) ∷ tasks) id = if k == id then some task else find_task tasks id

-- `std::unordered_map::emplace`: nothing is inserted if the key is there.
unfoldable pub emplace : List (ℕ × TaskSpec) → ℕ → TaskSpec → List (ℕ × TaskSpec)
unfolding find_task
emplace tasks id task = elim (find_task tasks id) [ none ↦ (id, task) ∷ tasks | some old ↦ tasks ]

abbrev pub new_task : ℕ → String → String → ℕ → List DatabaseLock → TaskSpec
new_task id conn_id request epoch_ms locks = record {
  id = id;
  conn_id = conn_id;
  request_str = request;
  epoch_ms = epoch_ms;
  work_estimated = 0;
  work_done = 0;
  locks = locks;
}

-- The state and the new task's id, for the pointer that is returned.
unfoldable pub allocate_task : Tasks → String → String → ℕ → List DatabaseLock → Result (Tasks × ℕ)
allocate_task db request conn_id epoch_ms locks = do
  acquire_all db.tasks locks
  let task_id = u64 (db.last_task_id + 1)
  ok (
    record {
      last_task_id = task_id;
      tasks = emplace db.tasks task_id (new_task task_id conn_id request epoch_ms locks);
    },
    task_id,
  )

unfoldable pub get_task : Tasks → ℕ → Result TaskSpec
unfolding find_task
get_task db task_id = elim (find_task db.tasks task_id) [
  | none ↦ err no_such_task
  | some task ↦ ok task
]

unfoldable pub erase_key : List (ℕ × TaskSpec) → ℕ → List (ℕ × TaskSpec)
erase_key [] id = []
erase_key ((k, task) ∷ tasks) id =
    if k == id then erase_key tasks id else (k, task) ∷ erase_key tasks id

unfoldable pub erase_task : Tasks → ℕ → Tasks
unfolding erase_key
erase_task db task_id = record db { tasks = erase_key db.tasks task_id }

-- A method of the `TaskSpec` that a worker holds a pointer to.
unfoldable pub update_key : List (ℕ × TaskSpec) → ℕ → (TaskSpec → TaskSpec) → List (ℕ × TaskSpec)
update_key [] id f = []
update_key ((k, task) ∷ tasks) id f =
    (k, (if k == id then f task else task)) ∷ update_key tasks id f
