-- ===== src/Index/MergeLoop.antt =====
-- The loops of a merge (libursa/OnDiskIndex.cpp) write the layout of the merged runs.
use ursadb.Prelude.{
  ℕ, zero, suc, ◌+◌, ◌-◌, ◌^◌, ◌≤◌, ◌<◌, ◌≡◌, refl, sym, ap, ◌∙◌, Bool, true, false, not, List, [],
  ◌∷◌, ◌++◌, ◌==◌, arith, length, length-append, All, u64, ok, leb, ltb, minus_one64,
}
use mathlib.Core.Path.{ap₂}
use mathlib.Core.List.{append_assoc, append-nil}
use ursadb.Codec.Encoding.{encoding}
use ursadb.Codec.Posix.{PosixRunWriter, new_posix, written, reset}
use ursadb.Core.{IndexType, num_trigrams}
use ursadb.Index.Batch.{IndexMergeHelper, find_max_batch, find_max_batch-le}
use ursadb.Index.Layout.{coded, coded-split, offsets_of}
use ursadb.Index.Merge.{
  read_batch, read_bytes, fill_batch, max_batch_bytes, write_indexes, write_batch, merge_loop,
}
use ursadb.Index.Merged.{Source, helpers, IsSource, merged, file_total}
use ursadb.Index.MergeBatch.{write_indexes-merged}

-- The offsets of `count` runs, without that of the end.
unfoldable pub cells_of : (ℕ → List ℕ) → ℕ → ℕ → ℕ → List ℕ
cells_of run offset i zero = []
cells_of run offset i (suc count) =
    offset ∷ cells_of run (offset + length (encoding 0 (run i))) (suc i) count

pub cells_of-end :
    (run : ℕ → List ℕ) (offset i count : ℕ)
    → cells_of run offset i count ++ (offset + length (coded run i count)) ∷ []
      ≡ offsets_of run offset i count
unfolding cells_of offsets_of coded
cells_of-end run offset i zero = let z : offset + 0 ≡ offset = omega arith in rw z refl
cells_of-end run offset i (suc count) =
    let next = offset + length (encoding 0 (run i)) in
    let e : offset + length (encoding 0 (run i) ++ coded run (suc i) count)
        ≡ next + length (coded run (suc i) count) =
      omega (arith, length-append (encoding 0 (run i)) (coded run (suc i) count)) in
    rw e (ap (λ more. offset ∷ more) (cells_of-end run next (suc i) count))

cells_of-append :
    (run : ℕ → List ℕ) (offset i m n : ℕ)
    → cells_of run offset i (m + n)
      ≡ cells_of run offset i m ++ cells_of run (offset + length (coded run i m)) (i + m) n
unfolding cells_of coded
cells_of-append run offset i zero n =
    let e : 0 + n ≡ n = omega arith in
    let f : i + 0 ≡ i = omega arith in
    let z : offset + 0 ≡ offset = omega arith in rw (e, f, z) refl
cells_of-append run offset i (suc m) n =
    let next = offset + length (encoding 0 (run i)) in
    let e : suc m + n ≡ suc (m + n) = omega arith in
    let f : i + suc m ≡ suc i + m = omega arith in
    let g : offset + length (encoding 0 (run i) ++ coded run (suc i) m)
        ≡ next + length (coded run (suc i) m) =
      omega (arith, length-append (encoding 0 (run i)) (coded run (suc i) m)) in
    rw (e, f, g) (ap (λ more. offset ∷ more) (cells_of-append run next (suc i) m n))

-- A writer between two runs.
abbrev pub IsFresh : PosixRunWriter → Type 0
IsFresh w = (w.prev ≡ minus_one64) × (w.out_bytes ≡ 0)

reset-IsFresh : (w : PosixRunWriter) → IsFresh (reset w) × (written (reset w) ≡ written w)
unfolding reset written
reset-IsFresh w = ((refl, refl), refl)

pub new_posix-IsFresh : (out : List ℕ) → IsFresh (new_posix out) × (written (new_posix out) ≡ out)
unfolding new_posix written
new_posix-IsFresh out = ((refl, refl), append-nil out)

-- Every batch has a run, and fits into its vector.
abbrev pub BatchesFit : List IndexMergeHelper → Type 0
BatchesFit indexes =
    (t : ℕ)
    → t < num_trigrams
    → (0 < find_max_batch indexes t max_batch_bytes)
      × (read_bytes indexes t (find_max_batch indexes t max_batch_bytes) ≤ max_batch_bytes)

module _ (accepts : List ℕ → List ℕ → Bool) (accepts_all : (f b : List ℕ) → accepts f b ≡ true)
    (type : IndexType) (sources : List Source) (laid_out : All (IsSource type) sources)
    (few : file_total sources < 2 ^ 32) where
  abbrev run : ℕ → List ℕ
  run = merged 0 sources

  write_batch-step :
      (batch : List ℕ) (t batch_size rounds i : ℕ) (w w' w'' : PosixRunWriter) (offset next end : ℕ)
      (cells : List ℕ)
      → write_indexes accepts batch t batch_size i w 0 0 (helpers sources) ≡ ok w'
      → u64 (offset + w'.out_bytes) ≡ next
      → write_batch accepts (helpers sources) batch t batch_size rounds (suc i) (reset w') next
        ≡ ok (w'', end, cells)
      → write_batch accepts (helpers sources) batch t batch_size (suc rounds) i w offset
        ≡ ok (w'', end, offset ∷ cells)
  unfolding write_batch
  write_batch-step batch t batch_size rounds i w w' w'' offset next end cells done e later =
      rw (done, e, later) refl

  -- A batch from its ngram `i` on.
  write_batch-merged :
      (rounds i t batch_size : ℕ) (w : PosixRunWriter) (out_offset : ℕ)
      → i + rounds ≡ batch_size
      → t + batch_size ≤ num_trigrams
      → IsFresh w
      → out_offset + length (coded run (t + i) rounds) < 2 ^ 64
      → (w' : PosixRunWriter) × (write_batch accepts
            (helpers sources)
            (read_batch (helpers sources) t batch_size)
            t
            batch_size
            rounds
            i
            w
            out_offset
          ≡ ok (
            w',
            out_offset + length (coded run (t + i) rounds),
            cells_of run out_offset (t + i) rounds,
          ))
        × IsFresh w'
        × (written w' ≡ written w ++ coded run (t + i) rounds)
  unfolding write_batch coded cells_of
  write_batch-merged zero i t batch_size w out_offset e le fresh fits =
      let z : out_offset + 0 ≡ out_offset = omega arith in
      (w, rw z refl, fresh, sym (append-nil (written w)))
  write_batch-merged (suc rounds) i t batch_size w out_offset e le fresh fits =
      let batch = read_batch (helpers sources) t batch_size in
      let bytes = encoding 0 (run (t + i)) in
      let more = coded run (suc (t + i)) rounds in
      let len = length-append bytes more in
      let (w', done, new) =
        write_indexes-merged accepts accepts_all type sources [] batch t batch_size i w 0 0 laid_out
          refl (omega arith) le (omega arith) (omega arith) (omega arith) (omega arith) in
      let (fresh', same) = reset-IsFresh w' in
      let offset : u64 (out_offset + w'.out_bytes) ≡ out_offset + length bytes =
        omega (arith, new.counted, fits, len) in
      let next : t + suc i ≡ suc (t + i) = omega arith in
      let (w'', later, fresh'', wrote) =
        write_batch-merged rounds (suc i) t batch_size (reset w') (out_offset + length bytes)
          (omega arith) le fresh'
          (omega (arith, fits, len, ap (λ n. length (coded run n rounds)) next)) in
      let end : out_offset + length bytes + length (coded run (t + suc i) rounds)
          ≡ out_offset + length (bytes ++ more) =
        omega (arith, len, ap (λ n. length (coded run n rounds)) next) in
      let cells = ap (λ n. cells_of run (out_offset + length bytes) n rounds) next in
      (
        w'',
        write_batch-step batch t batch_size rounds i w w' w'' out_offset (out_offset + length bytes)
            _ _ done offset (later ∙ ap₂ (λ n c. ok (w'', n, c)) end cells),
        fresh'',
        wrote
            ∙ ap (λ n. written (reset w') ++ coded run n rounds) next
            ∙ ap (λ bs. bs ++ more) (same ∙ new.wrote)
            ∙ append_assoc (written w) bytes more,
      )

  abbrev pub Fits : Type 0
  Fits = BatchesFit (helpers sources)

  merge_loop-step :
      (fuel t size : ℕ) (w w' w'' : PosixRunWriter) (offset next end : ℕ) (cells more : List ℕ)
      → t < num_trigrams
      → find_max_batch (helpers sources) t max_batch_bytes ≡ size
      → 0 < size
      → read_bytes (helpers sources) t size ≤ max_batch_bytes
      → write_batch accepts
          (helpers sources)
          (read_batch (helpers sources) t size)
          t
          size
          size
          0
          w
          offset
        ≡ ok (w', next, cells)
      → merge_loop accepts (helpers sources) fuel (t + size) w' next ≡ ok (w'', end, more)
      → merge_loop accepts (helpers sources) (suc fuel) t w offset ≡ ok (w'', end, cells ++ more)
  unfolding merge_loop fill_batch
  merge_loop-step fuel t size w w' w'' offset next end cells more left e pos room done later =
      let goes_on : ltb t num_trigrams ≡ true = ground arith in
      let some_run : not (size == 0) ≡ true = ground arith in
      let inside : leb (read_bytes (helpers sources) t size) max_batch_bytes ≡ true =
        ground arith in
      rw (goes_on, merge_loop) (rw (e, some_run, inside, done, later) refl)

  merge_loop-end :
      (fuel t : ℕ) (w : PosixRunWriter) (offset : ℕ)
      → t ≡ num_trigrams
      → merge_loop accepts (helpers sources) fuel t w offset ≡ ok (w, offset, [])
  unfolding merge_loop
  merge_loop-end zero t w offset e =
      let stops : ltb t num_trigrams ≡ false = ground arith in rw stops refl
  merge_loop-end (suc fuel) t w offset e =
      let stops : ltb t num_trigrams ≡ false = ground arith in rw (stops, merge_loop) refl

  -- The main loop from an ngram on, where `left` ngrams are left.
  pub merge_loop-merged :
      Fits
      → (fuel left t : ℕ) (w : PosixRunWriter) (out_offset : ℕ) → t + left ≡ num_trigrams
      → left ≤ fuel
      → IsFresh w
      → out_offset + length (coded run t left) < 2 ^ 64
      → (w' : PosixRunWriter) × (merge_loop accepts (helpers sources) fuel t w out_offset
          ≡ ok (w', out_offset + length (coded run t left), cells_of run out_offset t left))
        × (written w' ≡ written w ++ coded run t left)
  merge_loop-merged batches fuel zero t w out_offset at enough fresh fits =
      let z : out_offset + length (coded run t 0) ≡ out_offset = unfold coded in omega arith in
      let none : cells_of run out_offset t 0 ≡ [] = unfold cells_of in refl in
      (
        w,
        rw (z, none) (merge_loop-end fuel t w out_offset (omega arith)),
        unfold coded in sym (append-nil (written w)),
      )
  merge_loop-merged batches zero (suc left) t w out_offset at enough fresh fits =
      absurd (omega arith)
  merge_loop-merged batches (suc fuel) (suc left) t w out_offset at enough fresh fits =
      let size = find_max_batch (helpers sources) t max_batch_bytes in
      let (pos, room) = batches t (omega arith) in
      let le = find_max_batch-le (helpers sources) t max_batch_bytes (omega arith) in
      let rest = suc left - size in
      let split : suc left ≡ size + rest = omega arith in
      let zero_on : t + 0 ≡ t = omega arith in
      let parts : coded run t (suc left) ≡ coded run t size ++ coded run (t + size) rest =
        ap (coded run t) split ∙ coded-split run t size rest in
      let len = length-append (coded run t size) (coded run (t + size) rest) in
      let total = ap length parts in
      let (w', done, fresh', wrote) =
        write_batch-merged size 0 t size w out_offset (omega arith) (omega arith) fresh
          (rw zero_on (omega (arith, fits, len, total))) in
      let next = out_offset + length (coded run t size) in
      let done' = rw zero_on at done in
      let (w'', later, wrote') =
        merge_loop-merged batches fuel rest (t + size) w' next (omega arith) (omega arith) fresh'
          (omega (arith, fits, len, total)) in
      let end : next + length (coded run (t + size) rest)
          ≡ out_offset + length (coded run t (suc left)) =
        omega (arith, len, total) in
      let cells : cells_of run out_offset t size ++ cells_of run next (t + size) rest
          ≡ cells_of run out_offset t (suc left) =
        sym (ap (cells_of run out_offset t) split ∙ cells_of-append run out_offset t size rest) in
      (
        w'',
        merge_loop-step fuel t size w w' w'' out_offset next _ _ _ (omega arith) refl pos room done'
              later
            ∙ ap₂ (λ n c. ok (w'', n, c)) end cells,
        wrote'
            ∙ ap (λ bs. bs ++ coded run (t + size) rest) (rw zero_on at wrote)
            ∙ append_assoc (written w) (coded run t size) (coded run (t + size) rest)
            ∙ ap (λ bs. written w ++ bs) (sym parts),
      )
