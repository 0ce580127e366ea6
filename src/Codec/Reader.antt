-- ===== src/Codec/Reader.antt =====
-- The readers of a compressed run: `read_compressed_run` and `decompress_single` of
-- libursa/Utils.cpp, and `RunIterator` of libursa/SortedRun.cpp. Bytes are numbers below 256; a
-- pointer into a buffer is the list of the bytes from there to the buffer's end.
use ursadb.Prelude.{
  ℕ, zero, suc, ◌+◌, List, [], ◌∷◌, u32, u64, Result, ok, err, out_of_bounds, out_of_fuel, ◌>>=◌,
  true, false, minus_one32, minus_one64,
}
use ursadb.Codec.Bytes.{is_last, add_group}

-- The loop of `read_compressed_run`, with what is pushed to `res` at the head of its result.
unfoldable pub read_loop : List ℕ → ℕ → ℕ → ℕ → List ℕ
read_loop [] acc shift prev = []
read_loop (next ∷ rest) acc shift prev =
    let acc' = add_group acc next shift in
    let prev' = u64 (prev + acc' + 1) in
    elim (is_last next) [
      | true ↦ u32 prev' ∷ read_loop rest 0 0 prev'
      | false ↦ read_loop rest acc' (u32 (shift + 7)) prev
    ]

unfoldable pub read_compressed_run : List ℕ → List ℕ
unfolding read_loop
read_compressed_run bytes = read_loop bytes 0 0 minus_one64

-- `decompress_single`: the number, and the pointer behind it. It does not know where the buffer
-- ends; reading on there is `out_of_bounds`.
unfoldable pub decompress_loop : List ℕ → ℕ → ℕ → Result (ℕ × List ℕ)
decompress_loop [] acc shift = err out_of_bounds
decompress_loop (next ∷ rest) acc shift =
    let acc' = add_group acc next shift in
    elim (is_last next) [
      | true ↦ ok (u32 acc', rest)
      | false ↦ decompress_loop rest acc' (u32 (shift + 7))
    ]

unfoldable pub decompress_single : List ℕ → Result (ℕ × List ℕ)
unfolding decompress_loop
decompress_single bytes = decompress_loop bytes 0 0

-- `prev_` is the bit pattern of an `int32_t`.
pub record RunIterator : Type 0 where
  pub pos : List ℕ
  pub prev : ℕ

unfoldable pub begin_at : List ℕ → RunIterator
begin_at bytes = record { pos = bytes; prev = minus_one32 }

-- `prev_ + acc + 1`, as the `uint32_t` that is returned.
unfoldable pub current_loop : List ℕ → ℕ → ℕ → ℕ → Result ℕ
current_loop [] prev acc shift = err out_of_bounds
current_loop (next ∷ rest) prev acc shift =
    let acc' = add_group acc next shift in
    elim (is_last next) [
      | true ↦ ok (u32 (prev + acc' + 1))
      | false ↦ current_loop rest prev acc' (u32 (shift + 7))
    ]

unfoldable pub current : RunIterator → Result ℕ
unfolding current_loop
current it = current_loop it.pos it.prev 0 0

unfoldable pub nextpos : List ℕ → Result (List ℕ)
nextpos [] = err out_of_bounds
nextpos (next ∷ rest) = elim (is_last next) [ true ↦ ok rest | false ↦ nextpos rest ]

-- `operator++`.
unfoldable pub advance : RunIterator → Result RunIterator
advance it = do value ← current it; pos' ← nextpos it.pos; ok (record { pos = pos'; prev = value })

-- What a library algorithm reads from `it` up to the end of the buffer, one element a round: it
-- stops at `it == end`. Each round takes a byte at least, so `length it.pos` rounds are enough.
unfoldable pub iterate : ℕ → RunIterator → Result (List ℕ)
iterate zero it = elim it.pos [ [] ↦ ok [] | _ ∷ _ ↦ err out_of_fuel ]
iterate (suc fuel) it = elim it.pos [
  | [] ↦ ok []
  | next ∷ rest ↦ do
    value ← current it
    it' ← advance it
    values ← iterate fuel it'
    ok (value ∷ values)
]
