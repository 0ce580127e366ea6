-- ===== src/Builder/Radix.antt =====
-- The radix sort of libursa/FlatIndexBuilder.cpp: `countsort` with its two arrays of numbers and its
-- array of counts, `count_bytes` and `flat_radixsort`. An array is a function of the position.
use ursadb.Prelude.{
  ℕ, zero, suc, ◌+◌, ◌-◌, ◌*◌, ◌/◌, ◌%◌, ◌^◌, true, false, ◌&&◌, List, [], ◌∷◌, leb, ltb, ◌==◌,
  if◌then◌else◌, length, u32, Result, ok, guard, ◌>>=◌, ◌>>◌, swap_size_mismatch,
}
use mathlib.Core.List.{reverse}

-- `array[at] = value`
abbrev pub update : (ℕ → ℕ) → ℕ → ℕ → ℕ → ℕ
update array at value i = if i == at then value else array i

-- `(x >> shift) & 0xFF`
abbrev pub digit : ℕ → ℕ → ℕ
digit shift x = x / 2 ^ shift % 256

-- The loops of `countsort`: the counts, their sums, and the numbers put in their places from the last
-- one on. `rounds` are left.
unfoldable pub count_loop : ℕ → List ℕ → (ℕ → ℕ) → ℕ → ℕ
count_loop shift [] count = count
count_loop shift (x ∷ xs) count =
    let d = digit shift x in count_loop shift xs (update count d (count d + 1))

unfoldable pub sum_loop : ℕ → ℕ → (ℕ → ℕ) → ℕ → ℕ
sum_loop zero i count = count
sum_loop (suc rounds) i count = sum_loop rounds (suc i) (update count i (count i + count (i - 1)))

unfoldable pub place_loop : ℕ → List ℕ → (ℕ → ℕ) → (ℕ → ℕ) → ℕ → ℕ
place_loop shift [] count swap = swap
place_loop shift (x ∷ xs) count swap =
    let d = digit shift x in
    place_loop shift xs (update count d (count d - 1)) (update swap (count d - 1) x)

-- The cells of an array from `i` on.
unfoldable pub cells : ℕ → ℕ → (ℕ → ℕ) → List ℕ
cells zero i array = []
cells (suc n) i array = array i ∷ cells n (suc i) array

unfoldable pub array_of : List ℕ → ℕ → ℕ
array_of [] i = 0
array_of (x ∷ xs) zero = x
array_of (x ∷ xs) (suc i) = array_of xs i

-- `*data_v` and `*swap_v` afterwards: at the end the two are swapped.
unfoldable pub countsort : List ℕ → List ℕ → ℕ → Result (List ℕ × List ℕ)
unfolding count_loop sum_loop place_loop cells array_of
countsort data_v swap_v shift = do
  guard (length data_v == length swap_v) swap_size_mismatch
  let count = sum_loop 255 1 (count_loop shift data_v (λ _. 0))
  let swap = place_loop shift (reverse data_v) count (array_of swap_v)
  ok (cells (length data_v) 0 swap, data_v)

-- The loop takes a round for each byte of the number, so that four are enough for 32 bits.
unfoldable pub count_bytes_loop : ℕ → ℕ → ℕ → ℕ
count_bytes_loop zero integer bytes = bytes
count_bytes_loop (suc fuel) integer bytes =
    let rest = count_bytes_loop fuel (integer / 256) (bytes + 1) in
    if integer == 0 then bytes else rest

unfoldable pub count_bytes : ℕ → ℕ
unfolding count_bytes_loop
count_bytes integer = count_bytes_loop 4 integer 0

-- The passes from `shift` on.
unfoldable pub radix_loop : ℕ → ℕ → ℕ → List ℕ → List ℕ → Result (List ℕ)
radix_loop zero skip_to shift data_v swap_v = ok data_v
radix_loop (suc rounds) skip_to shift data_v swap_v = elim (leb skip_to shift && ltb shift 40) [
  | true ↦ radix_loop rounds skip_to (shift + 8) data_v swap_v
  | false ↦ countsort data_v swap_v shift >>= λ swapped.
      radix_loop rounds skip_to (shift + 8) swapped.0 swapped.1
]

unfoldable pub zeros : ℕ → List ℕ
zeros zero = []
zeros (suc n) = 0 ∷ zeros n

unfoldable pub flat_radixsort : List ℕ → ℕ → Result (List ℕ)
unfolding radix_loop count_bytes zeros
flat_radixsort data_v max_fileid =
    radix_loop 8 (count_bytes (u32 max_fileid) * 8) 0 data_v (zeros (length data_v))
