-- ===== src/Codec/RoundTrip.antt =====
-- What `RunWriter` writes, `read_compressed_run` and `RunIterator` read.
use ursadb.Prelude.{
  ℕ, suc, ◌+◌, ◌-◌, ◌*◌, ◌^◌, ◌≤◌, ◌<◌, ◌≡◌, refl, ◌∙◌, true, List, [], ◌∷◌, ◌++◌, arith, u32, u64,
  length, length-append, All, IsRun, IsRunFrom, IsU32, ok, minus_one64,
}
use mathlib.Core.List.{append_assoc, append-nil}
use ursadb.Codec.Bytes.{put_diff, add_group_fits}
use ursadb.Codec.Reader.{read_loop, read_compressed_run}
use ursadb.Codec.Writer.{RunWriter, above, gap, new_writer, write, write_all, compress_run}
use ursadb.Codec.Encoding.{encoding, last_of, Reads-put_diff}

-- `prev` is the bit pattern of the number before `base`.
abbrev pub IsBefore : ℕ → ℕ → Type 0
IsBefore prev base = (u64 (prev + 1) ≡ base) × (prev < 2 ^ 64)

module _ (x base prev : ℕ) (before : IsBefore prev base) (le : base ≤ x) (fits : IsU32 x) where
  pub above_of_le : above x prev ≡ true
  above_of_le = ground arith

  pub gap_of_le : gap x prev ≡ x - base
  gap_of_le = ground arith

write_of_le :
    (x base : ℕ) (w : RunWriter)
    → IsBefore w.prev base
    → base ≤ x
    → IsU32 x
    → write w x
      ≡ ok (record {
        out = w.out ++ put_diff (x - base);
        out_bytes = u64 (w.out_bytes + length (put_diff (x - base)));
        prev = x;
      })
unfolding write
write_of_le x base w b le fits =
    rw (above_of_le x base w.prev b le fits, gap_of_le x base w.prev b le fits)

write_all-encoding :
    (xs : List ℕ) (base : ℕ) (w : RunWriter)
    → IsBefore w.prev base
    → w.out_bytes < 2 ^ 64
    → IsRunFrom base xs
    → All IsU32 xs
    → write_all w xs
      ≡ ok (record {
        out = w.out ++ encoding base xs;
        out_bytes = u64 (w.out_bytes + length (encoding base xs));
        prev = last_of w.prev xs;
      })
unfolding write_all encoding
write_all-encoding [] base w b fits r h = rw append-nil (ground arith)
write_all-encoding (x ∷ xs) base w b fits r h =
    let bytes = put_diff (x - base) in
    let w' : RunWriter = record {
      out = w.out ++ bytes;
      out_bytes = u64 (w.out_bytes + length bytes);
      prev = x;
    } in
    rw (write_of_le x base w b r.0 h.0) (
      write_all-encoding xs (suc x) w' (omega arith) (omega arith) r.1 h.1
      ∙ ground (
        arith,
        append_assoc w.out bytes (encoding (suc x) xs),
        length-append bytes (encoding (suc x) xs),
      ))

-- `compress_run` appends the coding of the run, and returns the number of bytes that it has.
pub compress_run-encoding :
    (run out : List ℕ)
    → IsRun run
    → All IsU32 run
    → compress_run run out ≡ ok (out ++ encoding 0 run, u64 (length (encoding 0 run)))
unfolding compress_run
compress_run-encoding run out r h =
    rw
      (write_all-encoding run 0 (new_writer out) (unfold new_writer in omega arith)
        (unfold new_writer in omega arith) r h)
      (unfold new_writer in ground arith)

read_loop-put_diff :
    (d prev : ℕ) (rest : List ℕ)
    → d < 2 ^ 32
    → read_loop (put_diff d ++ rest) 0 0 prev
      ≡ u32 (u64 (prev + d + 1)) ∷ read_loop rest 0 0 (u64 (prev + d + 1))
unfolding read_loop
read_loop-put_diff d prev rest h =
    let e : 0 + d * 2 ^ 0 ≡ d = omega arith in
    rw e at (
      Reads-put_diff {W = Unit {0}} (λ _ bytes acc shift. read_loop bytes acc shift prev) (λ w _. w)
        (λ _ acc more. u32 (u64 (prev + acc + 1)) ∷ read_loop more 0 0 (u64 (prev + acc + 1)))
        (λ _ g acc shift more small fits. ground (arith, add_group_fits acc g shift))
        (λ _ g acc shift more small fits. ground (arith, add_group_fits acc (128 + g) shift)) d tt 0
        0 rest (omega arith))

read_loop-encoding :
    (xs : List ℕ) (base prev : ℕ)
    → IsBefore prev base
    → IsRunFrom base xs
    → All IsU32 xs
    → read_loop (encoding base xs) 0 0 prev ≡ xs
unfolding encoding
read_loop-encoding [] base prev b r h = unfold read_loop in refl
read_loop-encoding (x ∷ xs) base prev b r h =
    rw (read_loop-put_diff (x - base) prev (encoding (suc x) xs) (omega arith)) (
      rw (read_loop-encoding xs (suc x) (u64 (prev + (x - base) + 1)) (omega arith) r.1 h.1)
        (ground arith))

-- Reading back what `compress_run` wrote to an empty stream gives the run.
pub read_compressed_run-encoding :
    (run : List ℕ) → IsRun run → All IsU32 run → read_compressed_run (encoding 0 run) ≡ run
unfolding read_compressed_run
read_compressed_run-encoding run r h = read_loop-encoding run 0 minus_one64 (omega arith) r h

-- For a run of 32 bit ids, `compress_run` writes some bytes behind what the stream has, returns
-- their number, and `read_compressed_run` gives the run back for those bytes.
pub read-compress_run :
    (run out : List ℕ)
    → IsRun run
    → All IsU32 run
    → (bytes : List ℕ) × (compress_run run out ≡ ok (out ++ bytes, u64 (length bytes)))
      × (read_compressed_run bytes ≡ run)
read-compress_run run out r h =
    (encoding 0 run, compress_run-encoding run out r h, read_compressed_run-encoding run r h)
