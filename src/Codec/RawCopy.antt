-- ===== src/Codec/RawCopy.antt =====
-- `PosixRunWriter::write_raw` of libursa/Utils.cpp: copying the coding of a run without decoding
-- it, with every file id moved up by `base`.
use ursadb.Prelude.{
  ℕ, suc, ◌+◌, ◌-◌, ◌*◌, ◌^◌, ◌≤◌, ◌<◌, ◌≡◌, refl, sym, ◌∙◌, Bool, true, false, List, [], ◌∷◌, ◌++◌,
  map, arith, u32, u64, length, All, IsRun, IsRunFrom, IsU32, ok, ◌>>=◌,
}
use mathlib.Core.Path.{subst}
use mathlib.Core.List.{append_assoc}
use ursadb.Codec.Bytes.{is_last, add_group, put_diff, add_group_fits}
use ursadb.Codec.Reader.{decompress_loop, decompress_single}
use ursadb.Codec.Posix.{PosixRunWriter, written, flush_full, write, copy_loop, write_raw}
use ursadb.Codec.Encoding.{encoding, last_of, push_all, Reads-put_diff, put_diff-cons}
use ursadb.Codec.Wrote.{
  Wrote, flushed, written-flushed, flushed_keeps, push, moved_on, push_all-Wrote, Wrote-trans,
  moved_on-Wrote,
}
use ursadb.Codec.RoundTrip.{IsBefore, above_of_le, gap_of_le}

decompress_single-put_diff :
    (d : ℕ) (rest : List ℕ) → d < 2 ^ 32 → decompress_single (put_diff d ++ rest) ≡ ok (d, rest)
unfolding decompress_single
decompress_single-put_diff d rest h =
    let e : u32 (0 + d * 2 ^ 0) ≡ d = omega arith in
    rw e at (
      Reads-put_diff {W = Unit {0}} (λ _ bytes acc shift. decompress_loop bytes acc shift)
        (λ w _. w) (λ _ acc more. ok (u32 acc, more))
        (λ _ g acc shift more small fits. ground (arith, add_group_fits acc g shift))
        (λ _ g acc shift more small fits. ground (arith, add_group_fits acc (128 + g) shift)) d tt 0
        0 rest (omega arith))

-- The coding depends on the differences only.
encoding-map_add :
    (off base moved : ℕ) (xs : List ℕ)
    → moved ≡ off + base
    → encoding moved (map (λ x. off + x) xs) ≡ encoding base xs
unfolding encoding
encoding-map_add off base moved [] e = refl
encoding-map_add off base moved (x ∷ xs) e =
    let diff : off + x - moved ≡ x - base = omega arith in
    rw (diff, encoding-map_add off (suc x) (suc (off + x)) xs (omega arith))

module _ (accepts : List ℕ → List ℕ → Bool)
    (accepts_all : (f b : List ℕ) → accepts f b ≡ true) where
  flush_full-flushed : (w : PosixRunWriter) → flush_full accepts w ≡ ok (flushed w)
  unfolding flush_full flushed
  flush_full-flushed w = ground (arith, accepts_all w.file w.buffer)

  copy_loop_last :
      (w : PosixRunWriter) (g acc shift : ℕ) (rest : List ℕ)
      → g < 128
      → acc + g * 2 ^ shift < 2 ^ 32
      → copy_loop accepts w (g ∷ rest) acc shift
        ≡ copy_loop accepts (moved_on (push w g) (acc + g * 2 ^ shift)) rest 0 0
  unfolding copy_loop push moved_on
  copy_loop_last w g acc shift rest small fits =
      let added : add_group acc g shift ≡ acc + g * 2 ^ shift =
        ground (arith, add_group_fits acc g shift) in
      let ends : is_last g ≡ true = ground arith in rw (flush_full-flushed, ends, added)

  copy_loop_more :
      (w : PosixRunWriter) (g acc shift : ℕ) (rest : List ℕ)
      → g < 128
      → acc + g * 2 ^ shift < 2 ^ 32
      → copy_loop accepts w ((128 + g) ∷ rest) acc shift
        ≡ copy_loop accepts (push w (128 + g)) rest (acc + g * 2 ^ shift) (u32 (shift + 7))
  unfolding copy_loop push
  copy_loop_more w g acc shift rest small fits =
      let added : add_group acc (128 + g) shift ≡ acc + g * 2 ^ shift =
        ground (arith, add_group_fits acc (128 + g) shift) in
      let goes_on : is_last (128 + g) ≡ false = ground arith in
      rw (flush_full-flushed, goes_on, added)

  copy_loop-put_diff :
      (d : ℕ) (w : PosixRunWriter) (rest : List ℕ)
      → d < 2 ^ 32
      → copy_loop accepts w (put_diff d ++ rest) 0 0
        ≡ copy_loop accepts (moved_on (push_all push w (put_diff d)) d) rest 0 0
  copy_loop-put_diff d w rest h =
      let e : 0 + d * 2 ^ 0 ≡ d = omega arith in
      rw e at (
        Reads-put_diff (λ w bytes acc shift. copy_loop accepts w bytes acc shift) push
          (λ w acc more. copy_loop accepts (moved_on w acc) more 0 0) copy_loop_last copy_loop_more
          d w 0 0 rest (omega arith))

  copy_loop-encoding :
      (xs : List ℕ) (off base : ℕ) (w : PosixRunWriter)
      → IsBefore w.prev (off + base)
      → w.out_bytes < 2 ^ 64
      → IsRunFrom base xs
      → All IsU32 (map (λ x. off + x) xs)
      → (w' : PosixRunWriter) × (copy_loop accepts w (encoding base xs) 0 0 ≡ ok w')
        × Wrote w (encoding base xs) (last_of w.prev (map (λ x. off + x) xs)) w'
  unfolding encoding
  copy_loop-encoding [] off base w b fits r h =
      (w, unfold copy_loop in refl, push_all-Wrote [] w fits)
  copy_loop-encoding (x ∷ xs) off base w b fits r h =
      let d = x - base in
      let w' = moved_on (push_all push w (put_diff d)) d in
      let first : Wrote w (put_diff d) (off + x) w' =
        moved_on-Wrote w d (off + x) fits (omega arith) in
      let (w'', done, later) =
        copy_loop-encoding xs off (suc x) w' (omega arith) (omega arith) r.1 h.1 in
      (
        w'',
        copy_loop-put_diff d w (encoding (suc x) xs) (omega arith) ∙ done,
        Wrote-trans w w' w'' _ _ (off + x) _ first (
            subst (λ t. Wrote w' (encoding (suc x) xs) (last_of t (map (λ x. off + x) xs)) w'')
              first.stands later),
      )

  -- `write` appends the coding of one number behind what was written.
  pub write-Wrote :
      (x base : ℕ) (w : PosixRunWriter)
      → IsBefore w.prev base
      → base ≤ x
      → IsU32 x
      → (w' : PosixRunWriter) × (write accepts w x ≡ ok w') × Wrote w (put_diff (x - base)) x w'
  unfolding write
  write-Wrote x base w b le fits =
      let bytes = put_diff (x - base) in
      let v : PosixRunWriter = record w {
        buffer = w.buffer ++ bytes;
        out_bytes = u64 (w.out_bytes + length bytes);
        prev = x;
      } in
      (
        flushed v,
        rw (above_of_le x base w.prev b le fits, gap_of_le x base w.prev b le fits)
            (flush_full-flushed v),
        record {
          wrote = written-flushed v ∙ unfold written in sym (append_assoc w.file w.buffer bytes);
          counted = (flushed_keeps v).0;
          stands = (flushed_keeps v).1;
        },
      )

  write_raw_step :
      (bytes rest : List ℕ) (off d : ℕ) (w : PosixRunWriter)
      → ((b : ℕ) × (bs : List ℕ) × (bytes ≡ b ∷ bs))
      → decompress_single bytes ≡ ok (d, rest)
      → write_raw accepts w off bytes
        ≡ (write accepts w (u32 (off + d)) >>= λ w'. copy_loop accepts w' rest 0 0)
  unfolding write_raw
  write_raw_step [] rest off d w (b, bs, e) h = cc
  write_raw_step (b ∷ bs) rest off d w _ h = rw h

  write_raw-encoding :
      (x off : ℕ) (xs : List ℕ) (w : PosixRunWriter)
      → IsU32 (off + x)
      → write_raw accepts w off (encoding 0 (x ∷ xs))
        ≡ (write accepts w (off + x) >>= λ w'. copy_loop accepts w' (encoding (suc x) xs) 0 0)
  unfolding encoding
  write_raw-encoding x off xs w fits =
      let rest = encoding (suc x) xs in
      let (b, bs, e) = put_diff-cons x in
      let sum : u32 (off + x) ≡ off + x = omega arith in
      let whole : x - 0 ≡ x = omega arith in
      rw whole (
        write_raw_step (put_diff x ++ rest) rest off x w (b, bs ++ rest, rw e)
          (decompress_single-put_diff x rest (omega arith))
        ∙ rw sum)

  -- `write_raw` on the coding of a run appends the coding of the run moved up by `off`.
  pub write_raw-Wrote :
      (xs : List ℕ) (off base : ℕ) (w : PosixRunWriter)
      → IsBefore w.prev base
      → base ≤ off
      → w.out_bytes < 2 ^ 64
      → IsRun xs
      → All IsU32 (map (λ x. off + x) xs)
      → (w' : PosixRunWriter) × (write_raw accepts w off (encoding 0 xs) ≡ ok w')
        × Wrote w
            (encoding base (map (λ x. off + x) xs))
            (last_of w.prev (map (λ x. off + x) xs))
            w'
  write_raw-Wrote [] off base w b le fits r h =
      (w, unfold write_raw encoding in refl, unfold encoding in push_all-Wrote [] w fits)
  write_raw-Wrote (x ∷ xs) off base w b le fits r h =
      let moved = map (λ x. off + x) xs in
      let (w', start, first) = write-Wrote (off + x) base w b (omega arith) (omega arith) in
      let here : IsBefore w'.prev (off + suc x) = omega (arith, first.stands) in
      let (w'', done, later) =
        copy_loop-encoding xs off (suc x) w' here (omega (arith, first.counted)) r.1 h.1 in
      let behind : Wrote w' (encoding (suc (off + x)) moved) (last_of (off + x) moved) w'' =
        rw (encoding-map_add off (suc x) (suc (off + x)) xs (omega arith))
          (subst (λ t. Wrote w' (encoding (suc x) xs) (last_of t moved) w'') first.stands later) in
      (
        w'',
        write_raw-encoding x off xs w h.0 ∙ rw start done,
        unfold encoding in Wrote-trans w w' w'' _ _ (off + x) _ first behind,
      )
