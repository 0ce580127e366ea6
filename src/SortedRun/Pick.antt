-- ===== src/SortedRun/Pick.antt =====
-- `SortedRun::pick_common` of libursa/SortedRun.cpp.
use ursadb.Prelude.{
  ℕ, zero, suc, ◌+◌, true, false, List, [], ◌∷◌, ltb, leb, ◌==◌, if◌then◌else◌, length, Result, ok,
  err, ◌>>=◌, out_of_bounds, out_of_fuel,
}
use ursadb.SortedRun.Runs.{SortedRun, of_sequence, empty, range, decompress}

-- A range that has not ended: the element that it stands on, and those behind it.
abbrev pub Head : Type 0
Head = ℕ × List ℕ

abbrev pub head_of : List ℕ → List Head → List Head
head_of [] heads = heads
head_of (x ∷ xs) heads = (x, xs) ∷ heads

-- The first loop: the ranges of the sources that are not empty. The sources are decompressed.
unfoldable pub open_heads : List SortedRun → Result (List Head)
open_heads [] = ok []
open_heads (source ∷ sources) = do
  ids ← range (decompress source)
  heads ← open_heads sources
  ok (if empty (decompress source) then heads else head_of ids heads)

-- The search for the least element, from index `i` on: its first index, and its value.
unfoldable pub min_scan : ℕ → ℕ → ℕ → List Head → ℕ × ℕ
min_scan i min_index min_id [] = (min_index, min_id)
min_scan i min_index min_id ((v, r) ∷ heads) =
    min_scan (suc i) (if ltb v min_id then i else min_index) (if ltb v min_id then v else min_id)
      heads

-- The count of `min_id` among the heads; those that stand on it move on, and go when they end.
unfoldable pub take_min : ℕ → List Head → ℕ × List Head
take_min min_id [] = (0, [])
take_min min_id ((v, r) ∷ heads) =
    let (n, left) = take_min min_id heads in
    if v == min_id then (suc n, head_of r left) else (n, (v, r) ∷ left)

-- That loop starts at `min_index`.
unfoldable pub take_from : ℕ → ℕ → List Head → ℕ × List Head
unfolding take_min
take_from zero min_id heads = take_min min_id heads
take_from (suc i) min_id [] = (0, [])
take_from (suc i) min_id (h ∷ heads) = let (n, left) = take_from i min_id heads in (n, h ∷ left)

-- The `while` loop, with what is pushed to `result` in front. Every round takes an element.
unfoldable pub pick_loop : ℕ → ℕ → List Head → Result (List ℕ)
pick_loop zero cutoff heads = err out_of_fuel
pick_loop (suc fuel) cutoff heads = elim (leb cutoff (length heads)) [
  | false ↦ ok []
  | true ↦ elim heads [
    | [] ↦ err out_of_bounds
    | h ∷ hs ↦
        let (min_index, min_id) = min_scan 1 0 h.0 hs in
        let (repeat_count, left) = take_from min_index min_id (h ∷ hs) in
        pick_loop fuel cutoff left >>= λ result.
        ok (if leb cutoff repeat_count then min_id ∷ result else result)
  ]
]

abbrev pub total : List Head → ℕ
total [] = 0
total ((v, r) ∷ heads) = suc (length r) + total heads

-- `cutoff` is not negative.
unfoldable pub pick_common : ℕ → List SortedRun → Result SortedRun
pick_common cutoff sources = do
  heads ← open_heads sources
  result ← pick_loop (suc (total heads)) cutoff heads
  ok (of_sequence result)
