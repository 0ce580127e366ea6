-- ===== src/Builder/Flat.antt =====
-- `FlatIndexBuilder` of libursa/FlatIndexBuilder.cpp: pairs of an ngram and a file id, packed into
-- 64 bits, which are sorted and written at the end. The sum stands for `|` where the bits are
-- disjoint.
use ursadb.Prelude.{
  ℕ, zero, suc, ◌+◌, ◌-◌, ◌*◌, ◌/◌, ◌%◌, ◌^◌, Bool, List, [], ◌∷◌, ◌++◌, ltb, ◌==◌, if◌then◌else◌,
  length, u32, u64, Result, ok, ◌>>=◌,
}
use Prim.Native.Nat.{max}
use ursadb.Codec.Posix.{PosixRunWriter, new_posix, reset, flush, write}
use ursadb.Core.{IndexType, num_trigrams}
use ursadb.Ngram.Generators.{get_generator_for}
use ursadb.Index.Bytes.{header_bytes}
use ursadb.Index.Layout.{header_of, words64}
use ursadb.Builder.Radix.{flat_radixsort}

abbrev pub max_trigrams : ℕ
max_trigrams = 1024 * 1024 * 64

pub record FlatIndexBuilder : Type 0 where
  pub ntype : IndexType
  pub raw_data : List ℕ
  pub max_fileid : ℕ

unfoldable pub new_flat : IndexType → FlatIndexBuilder
new_flat ntype = record { ntype = ntype; raw_data = []; max_fileid = 0 }

-- `fid | (uint64_t{val} << 40)`, and the two parts of it. (The second is narrowed to the 32 bits of a
-- `FileId`, which all file ids have.)
abbrev pub pack : ℕ → ℕ → ℕ
pack fid val = fid + val * 2 ^ 40

abbrev pub val_of : ℕ → ℕ
val_of d = d / 2 ^ 40 % 2 ^ 24

abbrev pub fid_of : ℕ → ℕ
fid_of d = d % 2 ^ 40

unfoldable pub add_trigram : FlatIndexBuilder → ℕ → ℕ → FlatIndexBuilder
add_trigram b fid val = record b { raw_data = b.raw_data ++ pack fid val ∷ [] }

-- The calls of the generator's callback.
unfoldable pub add_trigrams : FlatIndexBuilder → ℕ → List ℕ → FlatIndexBuilder
unfolding add_trigram
add_trigrams b fid [] = b
add_trigrams b fid (val ∷ vals) = add_trigrams (add_trigram b fid val) fid vals

unfoldable pub add_file : FlatIndexBuilder → ℕ → List ℕ → FlatIndexBuilder
unfolding add_trigrams
add_file b fid mem =
    let b' = record b { max_fileid = max fid b.max_fileid } in
    add_trigrams b' fid (get_generator_for b.ntype mem)

unfoldable pub can_still_add : FlatIndexBuilder → ℕ → ℕ → Bool
can_still_add b bytes file_count =
    let max_trigrams_produced = if ltb bytes 3 then 0 else bytes - 2 in
    ltb (u64 (length b.raw_data + max_trigrams_produced)) max_trigrams

-- `std::unique`: of equal neighbours the first is kept.
unfoldable pub unique_from : ℕ → List ℕ → List ℕ
unique_from last [] = []
unique_from last (x ∷ xs) = if x == last then unique_from last xs else x ∷ unique_from x xs

unfoldable pub unique : List ℕ → List ℕ
unfolding unique_from
unique [] = []
unique (x ∷ xs) = x ∷ unique_from x xs

-- `offset` is an `int`: what is added wraps, and a negative one is extended by its sign when it is
-- stored as an `uint64_t`.
abbrev pub add_int : ℕ → ℕ → ℕ
add_int offset bytes = u32 (offset + bytes)

abbrev pub int_to_u64 : ℕ → ℕ
int_to_u64 offset = if ltb offset (2 ^ 31) then offset else offset + (2 ^ 64 - 2 ^ 32)

-- Cells of `offsets` that are set to the same offset.
unfoldable pub fill : ℕ → ℕ → List ℕ
fill zero offset = []
fill (suc count) offset = int_to_u64 offset ∷ fill count offset

-- The variables of the loop of `save`; of `offsets` the cells that are set, which are those up to
-- `last_trigram`.
pub record SaveState : Type 0 where
  pub writer : PosixRunWriter
  pub offset : ℕ
  pub offsets : List ℕ
  pub last_trigram : ℕ

-- `if (last_trigram != val) { ... }`
unfoldable pub close_runs : SaveState → ℕ → SaveState
unfolding fill
close_runs s val =
    if s.last_trigram == val
    then s
    else (let offset' = add_int s.offset s.writer.out_bytes in
        record {
          writer = reset s.writer;
          offset = offset';
          offsets = s.offsets ++ fill (val - s.last_trigram) offset';
          last_trigram = val;
        })

-- `accepts`: see `PosixRunWriter`.
module _ (accepts : List ℕ → List ℕ → Bool) where
  unfoldable pub save_loop : SaveState → List ℕ → Result SaveState
  unfolding close_runs
  save_loop s [] = ok s
  save_loop s (d ∷ ds) =
      let s' = close_runs s (val_of d) in
      write accepts s'.writer (fid_of d) >>= λ w. save_loop (record s' { writer = w }) ds

  -- What follows the loop.
  unfoldable pub save_end : SaveState → Result (List ℕ)
  unfolding fill
  save_end s = do
    let offset = add_int s.offset s.writer.out_bytes
    w ← flush accepts s.writer
    ok (w.file ++ words64 (s.offsets ++ fill (num_trigrams - s.last_trigram) offset))

  -- The bytes of the file.
  unfoldable pub save : FlatIndexBuilder → Result (List ℕ)
  unfolding unique save_loop save_end
  save b = do
    sorted ← flat_radixsort b.raw_data b.max_fileid
    s ←
        save_loop
          (record {
            writer = new_posix (header_bytes (header_of b.ntype));
            offset = 16;
            offsets = 16 ∷ [];
            last_trigram = 0;
          })
          (unique sorted)
    save_end s
