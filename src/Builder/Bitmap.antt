-- ===== src/Builder/Bitmap.antt =====
-- `BitmapIndexBuilder` of libursa/BitmapIndexBuilder.cpp: a byte of flags for each ngram, one flag
-- for each of at most eight files.
use ursadb.Prelude.{
  ℕ, zero, suc, ◌+◌, ◌*◌, ◌/◌, ◌%◌, ◌^◌, Bool, not, List, [], ◌∷◌, ◌++◌, ltb, leb, ◌==◌,
  if◌then◌else◌, u64, Result, ok, guard, ◌>>=◌, ◌>>◌, file_id_out_of_range,
}
use Prim.Native.Nat.{bit_and, bit_or}
use ursadb.Codec.Writer.{compress_run}
use ursadb.Core.{IndexType, num_trigrams}
use ursadb.Ngram.Generators.{get_generator_for}
use ursadb.Index.Bytes.{header_bytes}
use ursadb.Index.Layout.{header_of, words64}

abbrev pub max_files : ℕ
max_files = 8

abbrev pub file_run_size : ℕ
file_run_size = 1

-- `raw_data` as a function of the position. Ngrams are below NUM_TRIGRAMS, so that no access is out
-- of range.
pub record BitmapIndexBuilder : Type 0 where
  pub ntype : IndexType
  pub raw_data : ℕ → ℕ

unfoldable pub new_bitmap : IndexType → BitmapIndexBuilder
new_bitmap ntype = record { ntype = ntype; raw_data = λ _. 0 }

-- `byte |= 1U << shift`, and `(byte & (1 << shift)) != 0`.
abbrev pub set_flag : ℕ → ℕ → ℕ
set_flag byte shift = bit_or byte (2 ^ shift) % 256

abbrev pub has_flag : ℕ → ℕ → Bool
has_flag byte shift = not (bit_and byte (2 ^ shift) == 0)

unfoldable pub add_trigram : BitmapIndexBuilder → ℕ → ℕ → BitmapIndexBuilder
add_trigram b fid val =
    let offset = fid / 8 in
    let shift = fid % 8 in
    record b {
      raw_data = λ i.
          if i == val * file_run_size + offset then set_flag (b.raw_data i) shift else b.raw_data i;
    }

-- The inner loop of `get_run`, from a shift on, with the rounds that are left.
unfoldable pub flags_loop : ℕ → ℕ → ℕ → ℕ → List ℕ
flags_loop zero byte offset shift = []
flags_loop (suc rounds) byte offset shift =
    let rest = flags_loop rounds byte offset (suc shift) in
    if has_flag byte shift then (offset * 8 + shift) ∷ rest else rest

-- The outer loop, over the bytes of a run.
unfoldable pub bytes_loop : ℕ → BitmapIndexBuilder → ℕ → ℕ → List ℕ
unfolding flags_loop
bytes_loop zero b run_start offset = []
bytes_loop (suc rounds) b run_start offset =
    flags_loop 8 (b.raw_data (run_start + offset)) offset 0
    ++ bytes_loop rounds b run_start (suc offset)

unfoldable pub get_run : BitmapIndexBuilder → ℕ → List ℕ
unfolding bytes_loop
get_run b val = bytes_loop file_run_size b (file_run_size * val) 0

-- The calls of the generator's callback.
unfoldable pub add_trigrams : BitmapIndexBuilder → ℕ → List ℕ → BitmapIndexBuilder
unfolding add_trigram
add_trigrams b fid [] = b
add_trigrams b fid (val ∷ vals) = add_trigrams (add_trigram b fid val) fid vals

unfoldable pub add_file : BitmapIndexBuilder → ℕ → List ℕ → Result BitmapIndexBuilder
unfolding add_trigrams
add_file b fid mem = do
  guard (not (leb max_files fid)) file_id_out_of_range
  ok (add_trigrams b fid (get_generator_for b.ntype mem))

unfoldable pub can_still_add : BitmapIndexBuilder → ℕ → ℕ → Bool
can_still_add b bytes file_count = ltb file_count max_files

-- The loop of `save` from `i` on: what the stream has afterwards, and the cells of `offsets` from
-- there, with the one that is set behind the loop.
unfoldable pub save_loop : BitmapIndexBuilder → ℕ → ℕ → ℕ → List ℕ → Result (List ℕ × List ℕ)
save_loop b zero i offset out = ok (out, offset ∷ [])
save_loop b (suc rounds) i offset out = do
  (out', bytes) ← compress_run (get_run b i) out
  (out'', offsets) ← save_loop b rounds (suc i) (u64 (offset + bytes)) out'
  ok (out'', offset ∷ offsets)

-- The bytes of the file. The position of the stream behind the header is 16.
unfoldable pub save : BitmapIndexBuilder → Result (List ℕ)
save b = do
  (out, offsets) ← save_loop b num_trigrams 0 16 (header_bytes (header_of b.ntype))
  ok (out ++ words64 offsets)
