-- ===== src/Builder/Size.antt =====
-- How long the coding of a run of 32 bit ids is: five bytes for an id at most.
use ursadb.Prelude.{
  ℕ, zero, suc, ◌+◌, ◌-◌, ◌*◌, ◌/◌, ◌^◌, ◌≤◌, ◌<◌, ◌≡◌, List, [], ◌∷◌, arith, length, length-append,
  All, IsU32,
}
use native.Mathlib.Decide.{dec_lt}
use ursadb.Codec.Bytes.{put_diff, put_diff_small, put_diff_large}
use ursadb.Codec.Encoding.{encoding}
use ursadb.Index.Layout.{coded}

length-put_diff : (groups d : ℕ) → d < 128 ^ suc groups → length (put_diff d) ≤ suc groups
length-put_diff zero d h = rw (put_diff_small d (omega arith)) (omega arith)
length-put_diff (suc groups) d h = elim (dec_lt d 128) [
  | yes small ↦ rw (put_diff_small d small) (omega arith)
  | no large ↦
      let e : 128 ^ suc (suc groups) ≤ 128 * 128 ^ suc groups = omega arith in
      rw (put_diff_large d (omega arith))
        (omega (arith, length-put_diff groups (d / 128) (omega arith)))
]

pub length-encoding :
    (base : ℕ) (xs : List ℕ) → All IsU32 xs → length (encoding base xs) ≤ 5 * length xs
unfolding encoding
length-encoding base [] h = omega arith
length-encoding base (x ∷ xs) h = omega (
  arith,
  length-put_diff 4 (x - base) (omega arith),
  length-encoding (suc x) xs h.1,
  length-append (put_diff (x - base)) (encoding (suc x) xs),
)

-- The coded runs of an index with at most `most` files.
pub length-coded :
    (run : ℕ → List ℕ) (most i count : ℕ)
    → ((t : ℕ) → (length (run t) ≤ most) × All IsU32 (run t))
    → length (coded run i count) ≤ 5 * (most * count)
unfolding coded
length-coded run most i zero h = omega arith
length-coded run most i (suc count) h = omega (
  arith,
  (h i).0,
  length-encoding 0 (run i) (h i).1,
  length-coded run most (suc i) count h,
  length-append (encoding 0 (run i)) (coded run (suc i) count),
  mul_suc most count,
)
  where
    mul_suc : (m n : ℕ) → m * suc n ≡ m + m * n
    mul_suc m n = grind arith
