-- ===== src/Index/Merge.antt =====
-- `on_disk_merge` of libursa/OnDiskIndex.cpp: the runs of several indexes are read in batches, and
-- written one behind the other with their file ids moved up. The progress of the task is left out.
use ursadb.Prelude.{
  ℕ, zero, suc, ◌+◌, ◌-◌, ◌^◌, Bool, true, false, not, ◌&&◌, List, [], ◌∷◌, ◌++◌, ◌==◌, ltb, leb,
  u32, u64, take, drop, Result, ok, err, guard, if◌then◌else◌, ◌>>=◌, ◌>>◌, batch_too_big,
  out_of_bounds, out_of_fuel, unexpected_index_type,
}
use ursadb.Codec.Posix.{PosixRunWriter, new_posix, reset, flush, write_raw}
use ursadb.Core.{IndexType, raw, num_trigrams}
use ursadb.Index.Batch.{IndexMergeHelper, run_size, find_max_batch}
use ursadb.Index.Bytes.{header_bytes}
use ursadb.Index.Layout.{header_of, words64}

-- 1 GiB.
abbrev pub max_batch_bytes : ℕ
max_batch_bytes = 2 ^ 30

-- `batch_data` after a batch has been read.
unfoldable pub read_batch : List IndexMergeHelper → ℕ → ℕ → List ℕ
read_batch [] trigram batch_size = []
read_batch (ndx ∷ indexes) trigram batch_size =
    ndx.index.ndxfile.pread (run_size ndx trigram batch_size) (ndx.run_offset_cache trigram)
    ++ read_batch indexes trigram batch_size

-- How many bytes are read, `batch_ptr - batch_data` after the loop.
unfoldable pub read_bytes : List IndexMergeHelper → ℕ → ℕ → ℕ
read_bytes [] trigram batch_size = 0
read_bytes (ndx ∷ indexes) trigram batch_size =
    run_size ndx trigram batch_size + read_bytes indexes trigram batch_size

-- Reading behind the end of the vector is `out_of_bounds`.
unfoldable pub fill_batch : List IndexMergeHelper → ℕ → ℕ → Result (List ℕ)
unfolding read_batch read_bytes
fill_batch indexes trigram batch_size = do
  guard (leb (read_bytes indexes trigram batch_size) max_batch_bytes) out_of_bounds
  ok (read_batch indexes trigram batch_size)

-- The type is compared by its number.
unfoldable pub have_type : IndexType → List IndexMergeHelper → Bool
have_type merge_type [] = true
have_type merge_type (ndx ∷ indexes) =
    (raw ndx.index.ntype == raw merge_type) && have_type merge_type indexes

module _ (accepts : List ℕ → List ℕ → Bool) where
  -- The runs of the ngram `trigram + i` in all indexes. Where the offsets are in their order, both
  -- places are within the batch; behind it, where the source would read on, there are no bytes here.
  unfoldable pub write_indexes :
      List ℕ → ℕ → ℕ → ℕ → PosixRunWriter → ℕ → ℕ → List IndexMergeHelper → Result PosixRunWriter
  write_indexes batch trigram batch_size i w base_bytes base_files [] = ok w
  write_indexes batch trigram batch_size i w base_bytes base_files (ndx ∷ indexes) =
      let run_start = base_bytes + run_size ndx trigram i in
      let run_end = base_bytes + run_size ndx trigram (i + 1) in
      write_raw accepts w base_files (take (run_end - run_start) (drop run_start batch)) >>= λ w'.
      write_indexes batch trigram batch_size i w' (base_bytes + run_size ndx trigram batch_size)
        (u32 (base_files + ndx.file_count)) indexes

  -- The ngrams of a batch from `i` on, with the rounds that are left. The cells of `offsets` that are
  -- set are handed back, and the writer and `out_offset`.
  unfoldable pub write_batch :
      List IndexMergeHelper
      → List ℕ
      → ℕ
      → ℕ
      → ℕ
      → ℕ
      → PosixRunWriter
      → ℕ
      → Result (PosixRunWriter × ℕ × List ℕ)
  unfolding write_indexes
  write_batch indexes batch trigram batch_size zero i w out_offset = ok (w, out_offset, [])
  write_batch indexes batch trigram batch_size (suc rounds) i w out_offset = do
    w' ← write_indexes batch trigram batch_size i w 0 0 indexes
    (w'', out_offset', offsets) ←
        write_batch indexes batch trigram batch_size rounds (suc i) (reset w')
          (u64 (out_offset + w'.out_bytes))
    ok (w'', out_offset', out_offset ∷ offsets)

  -- The main loop. Every round takes an ngram at least, so that NUM_TRIGRAMS rounds are enough.
  unfoldable pub merge_loop :
      List IndexMergeHelper → ℕ → ℕ → PosixRunWriter → ℕ → Result (PosixRunWriter × ℕ × List ℕ)
  unfolding write_batch fill_batch
  merge_loop indexes zero trigram w out_offset =
      if ltb trigram num_trigrams then err out_of_fuel else ok (w, out_offset, [])
  merge_loop indexes (suc fuel) trigram w out_offset = elim (ltb trigram num_trigrams) [
    | false ↦ ok (w, out_offset, [])
    | true ↦
        let batch_size = find_max_batch indexes trigram max_batch_bytes in
        guard (not (batch_size == 0)) batch_too_big
        >> (fill_batch indexes trigram batch_size >>= λ batch.
            write_batch indexes batch trigram batch_size batch_size 0 w out_offset >>= λ done.
            merge_loop indexes fuel (trigram + batch_size) done.0 done.1 >>= λ later.
            ok (later.0, later.1, done.2 ++ later.2))
  ]

  -- The bytes of the file behind the header.
  unfoldable pub on_disk_merge_core : List IndexMergeHelper → List ℕ → Result (List ℕ)
  unfolding merge_loop
  on_disk_merge_core indexes out = do
    merged ← merge_loop indexes num_trigrams 0 (new_posix out) 16
    w ← flush accepts merged.0
    ok (w.file ++ words64 (merged.2 ++ merged.1 ∷ []))

  unfoldable pub on_disk_merge : IndexType → List IndexMergeHelper → Result (List ℕ)
  unfolding on_disk_merge_core have_type
  on_disk_merge merge_type indexes = do
    guard (have_type merge_type indexes) unexpected_index_type
    on_disk_merge_core indexes (header_bytes (header_of merge_type))
