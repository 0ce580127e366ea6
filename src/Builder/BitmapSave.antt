-- ===== src/Builder/BitmapSave.antt =====
-- What `BitmapIndexBuilder::save` (libursa/BitmapIndexBuilder.cpp) writes is the layout of an index.
use ursadb.Prelude.{
  ℕ, zero, suc, ◌+◌, ◌^◌, ◌<◌, ◌≡◌, refl, ap, List, ◌++◌, arith, u64, length, length-append, ok,
}
use mathlib.Core.List.{append_assoc, append-nil}
use ursadb.Codec.Encoding.{encoding}
use ursadb.Codec.RoundTrip.{compress_run-encoding}
use ursadb.Core.{num_trigrams}
use ursadb.Index.Bytes.{header_bytes}
use ursadb.Index.Layout.{coded, offsets_of, layout, header_of, start_of, words64}
use ursadb.Builder.Size.{length-coded}
use ursadb.Builder.Bitmap.{BitmapIndexBuilder, get_run, save_loop, save}
use ursadb.Builder.BitmapRuns.{get_run-IsRun, get_run-small, length-get_run}

module _ (b : BitmapIndexBuilder) where
  save_loop-coded :
      (rounds i offset : ℕ) (out : List ℕ)
      → offset + length (coded (get_run b) i rounds) < 2 ^ 64
      → save_loop b rounds i offset out
        ≡ ok (out ++ coded (get_run b) i rounds, offsets_of (get_run b) offset i rounds)
  unfolding save_loop coded offsets_of
  save_loop-coded zero i offset out fits = rw (append-nil out) refl
  save_loop-coded (suc rounds) i offset out fits =
      let bytes = encoding 0 (get_run b i) in
      let more = coded (get_run b) (suc i) rounds in
      let len = length-append bytes more in
      let sum : u64 (offset + u64 (length bytes)) ≡ offset + length bytes = omega (arith, len) in
      rw (compress_run-encoding (get_run b i) out (get_run-IsRun b i) (get_run-small b i), sum)
        (rw
          (save_loop-coded rounds (suc i) (offset + length bytes) (out ++ bytes)
            (omega (arith, len)))
          (rw (append_assoc out bytes more) refl))

  pub bitmap_fits : start_of (get_run b) num_trigrams < 2 ^ 64
  bitmap_fits = omega (
    arith,
    length-coded (get_run b) 8 0 num_trigrams (λ t. (length-get_run b t, get_run-small b t)),
  )

  -- `save` writes the runs of all ngrams.
  pub save-layout : save b ≡ ok (layout b.ntype (get_run b) num_trigrams)
  unfolding save layout
  save-layout =
      rw (save_loop-coded num_trigrams 0 16 (header_bytes (header_of b.ntype)) bitmap_fits) (
        ap ok (
          append_assoc (header_bytes (header_of b.ntype)) (coded (get_run b) 0 num_trigrams)
            (words64 (offsets_of (get_run b) 16 0 num_trigrams))))
