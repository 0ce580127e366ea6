-- ===== src/Index/Answers.antt =====
-- A query of an index file (libursa/OnDiskIndex.cpp) gives the run that is coded in it.
use ursadb.Prelude.{
  ℕ, ◌+◌, ◌-◌, ◌≤◌, ◌<◌, ◌≡◌, ◌⊎◌, refl, ap, true, not, ◌||◌, List, ltb, elem, arith, All, IsRun,
  IsU32, ok, err, inl, inr, invalid_run, ◌>>=◌,
}
use ursadb.Codec.Encoding.{encoding}
use ursadb.Core.{IndexType, raw, db_magic, is_valid_index_type}
use ursadb.SortedRun.Runs.{of_run}
use ursadb.QueryResult.Ops.{QueryResult, of_results}
use ursadb.QueryResult.Sets.{Means, just}
use ursadb.Index.File.{
  IndexFile, data_offset, run_array_size, index_version, cast_type, open_index, get_run_offsets,
  get_run, query_primitive, query,
}

get_run-coded :
    (f : IndexFile) (ptr next_ptr : ℕ) (ids : List ℕ)
    → ptr ≤ next_ptr
    → next_ptr ≤ f.index_size
    → f.pread (next_ptr - ptr) ptr ≡ encoding 0 ids
    → get_run f ptr next_ptr ≡ ok (of_run (encoding 0 ids))
unfolding get_run
get_run-coded f ptr next_ptr ids order inside coded =
    let passes : not (ltb next_ptr ptr || ltb f.index_size next_ptr) ≡ true = ground arith in
    rw (passes, coded) refl

-- Where the offsets of an ngram lie in their order within the file, and the bytes between them are
-- the coding of a run of 32 bit ids, the query for the ngram gives the files of that run.
pub query-Means :
    (f : IndexFile) (trigram : ℕ) (ids : List ℕ)
    → f.run_array trigram ≤ f.run_array (trigram + 1)
    → f.run_array (trigram + 1) ≤ f.index_size
    → f.pread (f.run_array (trigram + 1) - f.run_array trigram) (f.run_array trigram)
      ≡ encoding 0 ids
    → IsRun ids
    → All IsU32 ids
    → (r : QueryResult) × (query f trigram ≡ ok r) × Means r (λ a. elem a ids)
unfolding query query_primitive get_run_offsets
query-Means f trigram ids order inside coded run fits = (
  of_results (of_run (encoding 0 ids)),
  ap (λ m. m >>= λ r. ok (of_results r)) (get_run-coded f _ _ ids order inside coded),
  just ids refl (record { is_run = run; fits = fits; shape = inr refl }) (λ a. refl),
)

-- A query throws where the offsets are out of order or behind the end of the file.
pub query_refuses :
    (f : IndexFile) (trigram : ℕ)
    → (f.run_array (trigram + 1) < f.run_array trigram) ⊎ (f.index_size < f.run_array (trigram + 1))
    → query f trigram ≡ err invalid_run
unfolding query query_primitive get_run_offsets get_run
query_refuses f trigram (inl order) = ground arith
query_refuses f trigram (inr outside) = ground arith

cast_type-raw : (n : ℕ) → is_valid_index_type n ≡ true → raw (cast_type n) ≡ n
unfolding is_valid_index_type cast_type raw
cast_type-raw n h = ground arith

-- A file is opened as an index if it has the size of one, the magic number, the version, a
-- valid type and a reserved field of zero; its type is the one whose number the header has.
pub open_index-raw :
    (f : IndexFile)
    → data_offset + run_array_size ≤ f.index_size
    → f.header.magic ≡ db_magic
    → f.header.version ≡ index_version
    → is_valid_index_type f.header.raw_type ≡ true
    → f.header.reserved ≡ 0
    → (type : IndexType) × (open_index f ≡ ok type) × (raw type ≡ f.header.raw_type)
unfolding open_index
open_index-raw f size magic version valid reserved =
    (cast_type f.header.raw_type, ground arith, cast_type-raw f.header.raw_type valid)
