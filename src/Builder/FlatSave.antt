-- ===== src/Builder/FlatSave.antt =====
-- What `FlatIndexBuilder::save` (libursa/FlatIndexBuilder.cpp) writes is the layout of an index.
use ursadb.Prelude.{
  ℕ, suc, ◌+◌, ◌-◌, ◌*◌, ◌^◌, ◌≤◌, ◌<◌, ◌≡◌, refl, ap, ◌∙◌, Bool, true, false, List, [], ◌∷◌, ◌++◌,
  ◌==◌, arith, length, length-append, All, IsRunFrom, IsRunFrom-weaken, ok, ◌>>=◌, Bool-cases, inl,
  inr,
}
use mathlib.Core.List.{append_assoc}
use ursadb.Codec.Bytes.{put_diff}
use ursadb.Codec.Encoding.{encoding}
use ursadb.Codec.Posix.{PosixRunWriter, written, write, reset}
use ursadb.Codec.Flushed.{flush_lem}
use ursadb.Codec.RoundTrip.{IsBefore}
use ursadb.Codec.RawCopy.{write-Wrote}
use ursadb.Core.{num_trigrams}
use ursadb.Index.Layout.{coded, offsets_of, words64}
use ursadb.Builder.Flat.{
  SaveState, val_of, fid_of, add_int, int_to_u64, fill, close_runs, save_loop, save_end,
}
use ursadb.Builder.FlatRuns.{IsPair, run_of, run_of-here, run_of-away, run_of-none}
use ursadb.Builder.Skip.{
  coded-ext, offsets_of-ext, coded-skip, offsets_of-skip, fill-suc, coded-none, offsets_of-none,
}

-- The bytes that are still to come, where ids from `base` on may follow for the current ngram.
abbrev pub rest_of : List ℕ → ℕ → ℕ → List ℕ
rest_of ds last base =
    encoding base (run_of ds last) ++ coded (run_of ds) (suc last) (num_trigrams - suc last)

abbrev pub end_of : SaveState → List ℕ → ℕ → ℕ
end_of s ds base = s.offset + s.writer.out_bytes + length (encoding base (run_of ds s.last_trigram))

-- The file in the end.
abbrev pub saved : SaveState → List ℕ → ℕ → List ℕ
saved s ds base =
    written s.writer
    ++ (rest_of ds s.last_trigram base
        ++ words64 (
            s.offsets
            ++ offsets_of (run_of ds) (end_of s ds base) (suc s.last_trigram)
                (num_trigrams - suc s.last_trigram)))

module _ (accepts : List ℕ → List ℕ → Bool)
    (accepts_all : (f b : List ℕ) → accepts f b ≡ true) where
  -- Nothing is left: the last offsets are filled in.
  save_end-saved :
      (s : SaveState) (base : ℕ)
      → s.last_trigram < num_trigrams
      → s.offset + s.writer.out_bytes < 2 ^ 31
      → save_end accepts s ≡ ok (saved s [] base)
  unfolding save_end
  save_end-saved s base below small =
      let (w, flushed, file) = flush_lem accepts accepts_all s.writer in
      let last = s.last_trigram in
      let none : (t : ℕ) → run_of [] t ≡ [] = λ t. unfold run_of in refl in
      let offset = s.offset + s.writer.out_bytes in
      let e : add_int s.offset s.writer.out_bytes ≡ offset = omega arith in
      let coding : encoding base (run_of [] last) ≡ [] =
        ap (encoding base) (none last) ∙ unfold encoding in refl in
      let runs = coded-none (run_of []) (suc last) (num_trigrams - suc last) (λ t le. none t) in
      let z : offset + 0 ≡ offset = omega arith in
      let count : num_trigrams - last ≡ suc (num_trigrams - suc last) = omega arith in
      let offsets =
        offsets_of-none (run_of []) offset (suc last) (num_trigrams - suc last) small
          (λ t le. none t) in
      rw (flushed, e, file, coding, runs, z, offsets, count) refl

  -- The offset of the end of the file's runs.
  abbrev pub total : SaveState → List ℕ → ℕ → ℕ
  total s ds base =
      end_of s ds base
      + length (coded (run_of ds) (suc s.last_trigram) (num_trigrams - suc s.last_trigram))

  -- The state in which the loop can go on with these pairs.
  pub record Continues (s : SaveState) (ds : List ℕ) (base : ℕ) : Type 0 where
    pub before : IsBefore s.writer.prev base
    pub below : s.last_trigram < num_trigrams
    pub fits : total s ds base < 2 ^ 31

  shifted : (w p e c x : List ℕ) → (w ++ p) ++ ((e ++ c) ++ x) ≡ w ++ (((p ++ e) ++ c) ++ x)
  shifted w p e c x = simp append_assoc

  -- A pair of the current ngram is written, and what will be saved stays the same.
  put_step :
      (s : SaveState) (d : ℕ) (ds : List ℕ) (base : ℕ)
      → (val_of d == s.last_trigram) ≡ true
      → base ≤ fid_of d
      → IsPair d
      → Continues s (d ∷ ds) base
      → (w : PosixRunWriter) × (write accepts s.writer (fid_of d) ≡ ok w)
        × Continues (record s { writer = w }) ds (suc (fid_of d))
        × (saved (record s { writer = w }) ds (suc (fid_of d)) ≡ saved s (d ∷ ds) base)
  put_step s d ds base same le pair h =
      let last = s.last_trigram in
      let fid = fid_of d in
      let bytes = put_diff (fid - base) in
      let more = encoding (suc fid) (run_of ds last) in
      let left = num_trigrams - suc last in
      let (w, done, new) = write-Wrote accepts accepts_all fid base s.writer h.before le pair.1 in
      let s' : SaveState = record s { writer = w } in
      let here : encoding base (run_of (d ∷ ds) last) ≡ bytes ++ more =
        ap (encoding base) (run_of-here d last ds same) ∙ unfold encoding in refl in
      let others : (t : ℕ) → suc last ≤ t → run_of (d ∷ ds) t ≡ run_of ds t =
        λ t above. run_of-away d t ds (ground arith) in
      let runs = coded-ext (run_of (d ∷ ds)) (run_of ds) (suc last) left others in
      let len = ap length here in
      let sum = length-append bytes more in
      let counted : w.out_bytes ≡ s.writer.out_bytes + length bytes =
        omega (arith, new.counted, h.fits, len, sum) in
      let ends : end_of s (d ∷ ds) base ≡ end_of s' ds (suc fid) =
        omega (arith, counted, len, sum) in
      let cells =
        offsets_of-ext (run_of (d ∷ ds)) (run_of ds) (end_of s (d ∷ ds) base) (suc last) left others
        ∙ ap (λ n. offsets_of (run_of ds) n (suc last) left) ends in
      (
        w,
        done,
        record {
          before = omega (arith, new.stands);
          below = h.below;
          fits = omega (arith, h.fits, ends, ap length runs);
        },
        rw (new.wrote, cells, here, runs) (shifted (written s.writer) bytes more _ _),
      )

  -- The runs of the ngrams before that of the next pair are empty: their offsets are set, and what
  -- will be saved stays the same.
  close_step :
      (s : SaveState) (d : ℕ) (ds : List ℕ) (base : ℕ)
      → (val_of d == s.last_trigram) ≡ false
      → IsRunFrom (s.last_trigram * 2 ^ 40 + base) (d ∷ ds)
      → All IsPair (d ∷ ds)
      → Continues s (d ∷ ds) base
      → ((close_runs s (val_of d)).last_trigram ≡ val_of d)
        × Continues (close_runs s (val_of d)) (d ∷ ds) 0
        × (saved (close_runs s (val_of d)) (d ∷ ds) 0 ≡ saved s (d ∷ ds) base)
  unfolding close_runs
  close_step s d ds base other run pairs h =
      let last = s.last_trigram in
      let val = val_of d in
      let changes : (last == val) ≡ false = ground arith in
      let above : last < val = ground arith in
      let small : val < num_trigrams = omega arith in
      let m = val - suc last in
      let left = num_trigrams - suc val in
      let runs = run_of (d ∷ ds) in
      let gone : (t : ℕ) → t < val → runs t ≡ [] =
        λ t lt. run_of-none t (val * 2 ^ 40) (d ∷ ds) (omega arith) ((omega arith, run.1)) pairs in
      let offset = s.offset + s.writer.out_bytes in
      let fits : offset < 2 ^ 31 = omega (arith, h.fits) in
      let e : add_int s.offset s.writer.out_bytes ≡ offset = omega arith in
      let positive : int_to_u64 offset ≡ offset = ground arith in
      let f : num_trigrams - suc last ≡ m + suc left = omega arith in
      let g : suc last + m ≡ val = omega arith in
      let n : val - last ≡ suc m = omega arith in
      let nothing : encoding base (runs last) ≡ [] =
        ap (encoding base) (gone last above) ∙ unfold encoding in refl in
      let bytes : coded runs (suc last) (num_trigrams - suc last)
          ≡ encoding 0 (runs val) ++ coded runs (suc val) left =
        ap (coded runs (suc last)) f
        ∙ coded-skip runs (suc last) m (suc left) (λ t le lt. gone t (omega arith))
        ∙ rw g (unfold coded in refl) in
      let cells : offsets_of runs (offset + 0) (suc last) (num_trigrams - suc last)
          ≡ fill m offset
            ++ offset ∷ offsets_of runs (offset + length (encoding 0 (runs val))) (suc val) left =
        let z : offset + 0 ≡ offset = omega arith in
        rw (z, f)
          (offsets_of-skip runs offset (suc last) m (suc left) fits
              (λ t le lt. gone t (omega arith))
            ∙ rw g (unfold offsets_of in refl)) in
      let kept : written (reset s.writer) ≡ written s.writer = unfold reset written in refl in
      let none_out : (reset s.writer).out_bytes ≡ 0 = unfold reset in refl in
      let z : offset + 0 ≡ offset = omega arith in
      let set : fill (val - last) offset ≡ fill m offset ++ offset ∷ [] =
        ap (λ k. fill k offset) n
        ∙ fill-suc m offset
        ∙ ap (λ k. fill m offset ++ k ∷ []) positive in
      rw (changes, e)
        (
          refl,
          record {
            before = unfold reset in omega arith;
            below = small;
            fits = omega (
              arith,
              h.fits,
              none_out,
              ap length bytes,
              length-append (encoding 0 (runs val)) (coded runs (suc val) left),
            );
          },
          rw (kept, none_out, z, set, nothing, bytes, cells)
              (ap
                (λ offs.
                  written s.writer
                  ++ ((encoding 0 (runs val) ++ coded runs (suc val) left) ++ words64 offs))
                (simp append_assoc)),
        )

  close_runs-same :
      (s : SaveState) (val : ℕ) → (val == s.last_trigram) ≡ true → close_runs s val ≡ s
  unfolding close_runs
  close_runs-same s val same = let e : (s.last_trigram == val) ≡ true = ground arith in rw e refl

  -- Behind a pair.
  run_behind :
      (last d : ℕ) (ds : List ℕ)
      → (val_of d == last) ≡ true
      → d < 2 ^ 64
      → IsRunFrom (suc d) ds
      → IsRunFrom (last * 2 ^ 40 + suc (fid_of d)) ds
  run_behind last d ds same small run = IsRunFrom-weaken _ (suc d) ds (ground arith) run

  -- The whole loop and what follows it.
  pub save_loop-saved :
      (ds : List ℕ) (s : SaveState) (base : ℕ)
      → IsRunFrom (s.last_trigram * 2 ^ 40 + base) ds
      → All IsPair ds
      → Continues s ds base
      → (save_loop accepts s ds >>= λ s'. save_end accepts s') ≡ ok (saved s ds base)
  unfolding save_loop
  save_loop-saved [] s base run pairs h = save_end-saved s base h.below (omega (arith, h.fits))
  save_loop-saved (d ∷ ds) s base run pairs h = elim (Bool-cases (val_of d == s.last_trigram)) [
    | inl same ↦
        let (w, done, next, kept) = put_step s d ds base same (ground arith) pairs.0 h in
        rw (close_runs-same s (val_of d) same, done)
          (save_loop-saved ds (record s { writer = w }) (suc (fid_of d))
              (run_behind s.last_trigram d ds same pairs.0.0 run.1) pairs.1 next
            ∙ ap ok kept)
    | inr other ↦
        let s' = close_runs s (val_of d) in
        let (at, opened, same_file) = close_step s d ds base other run pairs h in
        let same : (val_of d == s'.last_trigram) ≡ true = ground (arith, at) in
        let (w, done, next, kept) = put_step s' d ds 0 same (omega arith) pairs.0 opened in
        rw done (
          save_loop-saved ds (record s' { writer = w }) (suc (fid_of d))
            (run_behind s'.last_trigram d ds same pairs.0.0 run.1) pairs.1 next
          ∙ ap ok (kept ∙ same_file))
  ]
