-- ===== src/Database/Stale.antt =====
-- Which iterators an update and `collect_stale_iterators` (libursa/Database.cpp) keep.
use ursadb.Prelude.{
  ℕ, ◌≡◌, refl, ap, ◌∙◌, true, false, List, [], ◌∷◌, leb, if◌then◌else◌, Option, none, some, arith,
  Bool-cases, inl, inr, get_elem?,
}
use mathlib.Core.Path.{subst, sym}
use Prim.Native.String.{String}
use text.Mathlib.Text.{◌==◌ as str_eq}
use text.Mathlib.TextEquality.{eq_iff}
use ursadb.Database.Tasks.{TaskSpec, iterator_lock, can_acquire}
use ursadb.Database.Held.{can_acquire-held}
use ursadb.Database.Iterators.{
  OnDiskIterator, update_offset, Iterators, find_iterator, erase_iterator, modify_iterator,
  update_iterator, collect_loop, collect_stale_iterators,
}

find-erase_iterator :
    (its : Iterators) (name : String) → find_iterator (erase_iterator its name) name ≡ none
unfolding find_iterator erase_iterator
find-erase_iterator [] name = refl
find-erase_iterator ((id, it) ∷ its) name = ground (arith, find-erase_iterator its name)

find_iterator-here :
    (id name : String) (jt : OnDiskIterator) (its : Iterators)
    → str_eq id name ≡ true
    → find_iterator ((id, jt) ∷ its) name ≡ some jt
unfolding find_iterator
find_iterator-here id name jt its h = rw (h, find_iterator) refl

abbrev iterator_or : OnDiskIterator → Option OnDiskIterator → OnDiskIterator
iterator_or other none = other
iterator_or other (some it) = it

find-modify_iterator :
    (its : Iterators) (name : String) (f : OnDiskIterator → OnDiskIterator) (it : OnDiskIterator)
    → find_iterator its name ≡ some it
    → find_iterator (modify_iterator its name f) name ≡ some (f it)
unfolding find_iterator modify_iterator
find-modify_iterator [] name f it h = cc
find-modify_iterator ((id, jt) ∷ its) name f it h = elim (Bool-cases (str_eq id name)) [
  | inl here ↦
      let same : jt ≡ it = ap (iterator_or jt) (sym (find_iterator-here id name jt its here) ∙ h) in
      rw here (ap (λ t. some (f t)) same)
  | inr elsewhere ↦ ground (arith, find-modify_iterator its name f it)
]

-- An iterator that is updated behind its last file is removed; before that, it gets the new offsets
-- and keeps the rest, the time of its last read included.
pub find-update_iterator :
    (its : Iterators) (name : String) (bytes files : ℕ) (it : OnDiskIterator)
    → find_iterator its name ≡ some it
    → find_iterator (update_iterator its name bytes files) name ≡ (
        if leb it.total_files files
        then none
        else some (record it { byte_offset = bytes; file_offset = files }))
unfolding update_iterator update_offset
find-update_iterator its name bytes files it h = elim (Bool-cases (leb it.total_files files)) [
  | inl finished ↦ rw (h, finished, update_iterator) (find-erase_iterator its name)
  | inr open_still ↦
      rw (h, open_still, update_iterator)
        (find-modify_iterator its name (update_offset bytes files) it h)
]

collect_loop-locked :
    (gc now : ℕ) (tasks : List (ℕ × TaskSpec)) (its : Iterators) (name : String)
    → can_acquire tasks (iterator_lock name) ≡ false
    → find_iterator (collect_loop gc now tasks its) name ≡ find_iterator its name
unfolding collect_loop find_iterator
collect_loop-locked gc now tasks [] name h = refl
collect_loop-locked gc now tasks ((id, it) ∷ its) name h = elim (Bool-cases (str_eq id name)) [
  | inl same ↦
      let locked : can_acquire tasks (iterator_lock id) ≡ false =
        subst (λ t. can_acquire tasks (iterator_lock t) ≡ false) (sym ((eq_iff id name).0 same))
          h in
      ground arith
  | inr other ↦ ground (arith, collect_loop-locked gc now tasks its name h)
]

-- Whatever the time is, an iterator whose lock is among the locks of some task, wherever the task and
-- the lock stand, is kept as it is.
pub collect_stale_iterators-locked :
    (gc now : ℕ) (tasks : List (ℕ × TaskSpec)) (its : Iterators) (name : String) (i id : ℕ)
    (holder : TaskSpec) (j : ℕ)
    → get_elem? tasks i ≡ some (id, holder)
    → get_elem? holder.locks j ≡ some (iterator_lock name)
    → find_iterator (collect_stale_iterators gc now tasks its) name ≡ find_iterator its name
unfolding collect_stale_iterators
collect_stale_iterators-locked gc now tasks its name i id holder j at listed =
    let taken = can_acquire-held tasks i id holder j (iterator_lock name) at listed in
    ground (arith, collect_loop-locked gc now tasks its name taken)
