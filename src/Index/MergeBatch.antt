-- ===== src/Index/MergeBatch.antt =====
-- A batch of a merge (libursa/OnDiskIndex.cpp) writes the merged runs.
use ursadb.Prelude.{
  ℕ, ◌+◌, ◌-◌, ◌^◌, ◌≤◌, ◌<◌, ◌≡◌, refl, sym, ap, ◌∙◌, Bool, true, List, [], ◌∷◌, ◌++◌, map, arith,
  length, length-append, All, u32, take, drop, ok,
}
use mathlib.Core.Path.{subst}
use mathlib.Core.List.{append_assoc}
use ursadb.Codec.Encoding.{encoding, last_of}
use ursadb.Codec.Posix.{PosixRunWriter, write_raw}
use ursadb.Codec.RoundTrip.{IsBefore}
use ursadb.Codec.Wrote.{Wrote, Wrote-trans, push_all-Wrote}
use ursadb.Codec.RawCopy.{write_raw-Wrote}
use ursadb.Core.{IndexType, num_trigrams}
use ursadb.Index.Batch.{run_size}
use ursadb.Index.Layout.{coded}
use ursadb.Index.Merge.{read_batch, write_indexes}
use ursadb.Index.Merged.{
  Source, helpers, IsSource, merged, file_total, next_of, encoding-append, last_of-append,
  IsBefore-last, map_add-bound, next_of-bound, bound-IsU32, run_size-source, pread-source,
  slice-source,
}

module _ (accepts : List ℕ → List ℕ → Bool) (accepts_all : (f b : List ℕ) → accepts f b ≡ true)
    (type : IndexType) where
  read_batch-cons :
      (s : Source) (sources : List Source)
      → IsSource type s
      → (t batch_size : ℕ) → t + batch_size ≤ num_trigrams
      → read_batch (helpers (s ∷ sources)) t batch_size
        ≡ coded s.run t batch_size ++ read_batch (helpers sources) t batch_size
  unfolding read_batch
  read_batch-cons s sources src t batch_size le =
      ap (λ bs. bs ++ read_batch (helpers sources) t batch_size)
        (pread-source type s src t batch_size le)

  write_indexes-step :
      (s : Source) (sources : List Source) (batch part : List ℕ) (t batch_size i : ℕ)
      (w w' w'' : PosixRunWriter) (at next base_files next_files : ℕ)
      → take
          (at + run_size s.helper t (i + 1) - (at + run_size s.helper t i))
          (drop (at + run_size s.helper t i) batch)
        ≡ part
      → write_raw accepts w base_files part ≡ ok w'
      → at + run_size s.helper t batch_size ≡ next
      → u32 (base_files + s.helper.file_count) ≡ next_files
      → write_indexes accepts batch t batch_size i w' next next_files (helpers sources) ≡ ok w''
      → write_indexes accepts batch t batch_size i w at base_files (helpers (s ∷ sources)) ≡ ok w''
  unfolding write_indexes
  write_indexes-step s sources batch part t batch_size i w w' w'' at next base_files next_files
        slice start place sum done =
      rw (slice, start, place, sum) done

  pub write_indexes-merged :
      (sources : List Source) (front batch : List ℕ) (t batch_size i : ℕ) (w : PosixRunWriter)
      (base_files base : ℕ)
      → All (IsSource type) sources
      → batch ≡ front ++ read_batch (helpers sources) t batch_size
      → i < batch_size
      → t + batch_size ≤ num_trigrams
      → IsBefore w.prev base
      → base ≤ base_files
      → w.out_bytes < 2 ^ 64
      → base_files + file_total sources < 2 ^ 32
      → (w' : PosixRunWriter) × (write_indexes accepts batch t batch_size i w
            (length front)
            base_files
            (helpers sources)
          ≡ ok w')
        × Wrote w
            (encoding base (merged base_files sources (t + i)))
            (last_of w.prev (merged base_files sources (t + i)))
            w'
  unfolding write_indexes merged
  write_indexes-merged [] front batch t batch_size i w base_files base h e below le before order out
        fits =
      (w, refl, unfold encoding in push_all-Wrote [] w out)
  write_indexes-merged (s ∷ sources) front batch t batch_size i w base_files base h e below le
        before order out fits =
      let src = h.0 in
      let ids = s.run (t + i) in
      let moved = map (λ a. base_files + a) ids in
      let more = merged (base_files + s.helper.file_count) sources (t + i) in
      let run = coded s.run t batch_size in
      let back = read_batch (helpers sources) t batch_size in
      let whole : batch ≡ front ++ (run ++ back) =
        e ∙ ap (λ bs. front ++ bs) (read_batch-cons s sources src t batch_size le) in
      let part = encoding 0 ids in
      let slice = slice-source type s src front back batch t batch_size i whole below le in
      let bounded = map_add-bound base_files s.helper.file_count ids (src.ids (t + i)) in
      let small = bound-IsU32 (base_files + s.helper.file_count) moved (omega arith) bounded in
      let (w', start, first) =
        write_raw-Wrote accepts accepts_all ids base_files base w before order out
          (src.runs (t + i)) small in
      let sum : u32 (base_files + s.helper.file_count) ≡ base_files + s.helper.file_count =
        omega arith in
      let place : length front + run_size s.helper t batch_size ≡ length (front ++ run) =
        omega (arith, run_size-source type s src t batch_size le, length-append front run) in
      let (w'', done, later) =
        write_indexes-merged sources (front ++ run) batch t batch_size i w'
          (base_files + s.helper.file_count) (next_of base moved) h.1
          (whole ∙ sym (append_assoc front run back)) below le
          (subst (λ p. IsBefore p (next_of base moved)) (sym first.stands)
            (IsBefore-last w.prev base moved before small))
          (next_of-bound base (base_files + s.helper.file_count) moved (omega arith) bounded)
          (omega (arith, first.counted)) (omega arith) in
      (
        w'',
        write_indexes-step s sources batch part t batch_size i w w' w'' (length front)
            (length (front ++ run)) base_files (base_files + s.helper.file_count) slice start place
            sum done,
        rw (encoding-append base moved more, last_of-append w.prev moved more)
            (Wrote-trans w w' w'' _ _ (last_of w.prev moved) _ first (
              subst (λ p. Wrote w' (encoding (next_of base moved) more) (last_of p more) w'')
                first.stands later)),
      )
