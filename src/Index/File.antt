-- ===== src/Index/File.antt =====
-- `OnDiskIndex` (libursa/OnDiskIndex.cpp): opening an index file, and the query for an ngram. The
-- counters are left out.
use ursadb.Prelude.{
  ℕ, ◌+◌, ◌-◌, ◌*◌, not, ◌||◌, List, ltb, ◌==◌, if◌then◌else◌, Result, ok, guard, ◌>>=◌, ◌>>◌,
  file_too_small, invalid_magic, unsupported_version, invalid_index_type, reserved_not_zero,
  invalid_run,
}
use ursadb.Core.{IndexType, gram3, text4, hash4, wide8, num_trigrams, db_magic, is_valid_index_type}
use ursadb.SortedRun.Runs.{SortedRun, of_run}
use ursadb.QueryResult.Ops.{QueryResult, of_results}

pub record OnDiskIndexHeader : Type 0 where
  pub magic : ℕ
  pub version : ℕ
  pub raw_type : ℕ
  pub reserved : ℕ

abbrev pub data_offset : ℕ
data_offset = 16

abbrev pub run_array_size : ℕ
run_array_size = (num_trigrams + 1) * 8

abbrev pub index_version : ℕ
index_version = 6

-- A file as the class reads it: its size, its header, the array of offsets at its end, and what the
-- system call `pread` gives for a length and an offset.
pub record IndexFile : Type 0 where
  pub index_size : ℕ
  pub header : OnDiskIndexHeader
  pub run_array : ℕ → ℕ
  pub pread : ℕ → ℕ → List ℕ

-- An index that has been opened.
pub record OnDiskIndex : Type 0 where
  pub ndxfile : IndexFile
  pub ntype : IndexType

-- `static_cast<IndexType>` of a number that is valid.
unfoldable pub cast_type : ℕ → IndexType
cast_type raw_type =
    if raw_type == 1
    then gram3
    else if raw_type == 2
    then text4
    else if raw_type == 3
    then hash4
    else wide8

-- The constructor: the checks in their order, and the type of the index.
unfoldable pub open_index : IndexFile → Result IndexType
unfolding cast_type
open_index f = do
  guard (not (ltb f.index_size (data_offset + run_array_size))) file_too_small
  guard (f.header.magic == db_magic) invalid_magic
  guard (f.header.version == index_version) unsupported_version
  guard (is_valid_index_type f.header.raw_type) invalid_index_type
  guard (f.header.reserved == 0) reserved_not_zero
  ok (cast_type f.header.raw_type)

-- `ptrs[0]` and `ptrs[1]`.
unfoldable pub get_run_offsets : IndexFile → ℕ → ℕ × ℕ
get_run_offsets f trigram = (f.run_array trigram, f.run_array (trigram + 1))

unfoldable pub get_run : IndexFile → ℕ → ℕ → Result SortedRun
get_run f ptr next_ptr = do
  guard (not (ltb next_ptr ptr || ltb f.index_size next_ptr)) invalid_run
  ok (of_run (f.pread (next_ptr - ptr) ptr))

unfoldable pub query_primitive : IndexFile → ℕ → Result SortedRun
unfolding get_run_offsets
query_primitive f trigram =
    let (ptr, next_ptr) = get_run_offsets f trigram in get_run f ptr next_ptr

unfoldable pub query : IndexFile → ℕ → Result QueryResult
query f trigram = query_primitive f trigram >>= λ r. ok (of_results r)

-- The array of offsets, as a function of the position.
unfoldable pub read_run_offsets : IndexFile → ℕ → ℕ
read_run_offsets f i = f.run_array i
