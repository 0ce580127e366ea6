-- ===== src/Database/Iterators.antt =====
-- The iterators of a `Database` (libursa/Database.cpp, libursa/OnDiskIterator.h). The map is the
-- list of its pairs, by `get_id()`. Writing and removing the files is left out.
use ursadb.Prelude.{
  ℕ, ◌+◌, ◌-◌, ◌^◌, Bool, ◌&&◌, List, [], ◌∷◌, ltb, leb, ◌==◌, if◌then◌else◌, Option, none, some,
  u64,
}
use Prim.Native.String.{String}
use text.Mathlib.Text.{◌==◌ as str_eq}
use ursadb.Database.Tasks.{TaskSpec, iterator_lock, can_acquire}

pub record OnDiskIterator : Type 0 where
  pub total_files : ℕ
  pub byte_offset : ℕ
  pub file_offset : ℕ
  pub last_read_time : ℕ

unfoldable pub update_offset : ℕ → ℕ → OnDiskIterator → OnDiskIterator
update_offset new_bytes new_files it = record it {
  byte_offset = new_bytes;
  file_offset = new_files;
}

abbrev pub Iterators : Type 0
Iterators = List (String × OnDiskIterator)

unfoldable pub find_iterator : Iterators → String → Option OnDiskIterator
find_iterator [] name = none
find_iterator ((id, it) ∷ its) name = if str_eq id name then some it else find_iterator its name

unfoldable pub erase_iterator : Iterators → String → Iterators
erase_iterator [] name = []
erase_iterator ((id, it) ∷ its) name =
    let rest = erase_iterator its name in if str_eq id name then rest else (id, it) ∷ rest

-- `iter.update_offset(...)` through the reference into the map.
unfoldable pub modify_iterator : Iterators → String → (OnDiskIterator → OnDiskIterator) → Iterators
modify_iterator [] name f = []
modify_iterator ((id, it) ∷ its) name f =
    (id, (if str_eq id name then f it else it)) ∷ modify_iterator its name f

unfoldable pub update_iterator : Iterators → String → ℕ → ℕ → Iterators
unfolding find_iterator erase_iterator modify_iterator
update_iterator its name byte_offset file_offset = elim (find_iterator its name) [
  | none ↦ its
  | some iter ↦
      if leb iter.total_files file_offset
      then erase_iterator its name
      else modify_iterator its name (update_offset byte_offset file_offset)
]

-- `now - iter.get_last_read_time() > iterator_gc_seconds`: the difference is taken as a `uint64_t`.
unfoldable pub is_stale : ℕ → ℕ → OnDiskIterator → Bool
is_stale iterator_gc_seconds now iter =
    ltb iterator_gc_seconds (u64 (now + (2 ^ 64 - iter.last_read_time)))

-- Both loops of `collect_stale_iterators`.
unfoldable pub collect_loop : ℕ → ℕ → List (ℕ × TaskSpec) → Iterators → Iterators
collect_loop iterator_gc_seconds now tasks [] = []
collect_loop iterator_gc_seconds now tasks ((itername, iter) ∷ its) =
    let rest = collect_loop iterator_gc_seconds now tasks its in
    if is_stale iterator_gc_seconds now iter && can_acquire tasks (iterator_lock itername)
    then rest
    else (itername, iter) ∷ rest

unfoldable pub collect_stale_iterators : ℕ → ℕ → List (ℕ × TaskSpec) → Iterators → Iterators
unfolding collect_loop
collect_stale_iterators iterator_gc_seconds now tasks its =
    if iterator_gc_seconds == 0 then its else collect_loop iterator_gc_seconds now tasks its
