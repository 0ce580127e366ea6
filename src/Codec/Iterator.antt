-- ===== src/Codec/Iterator.antt =====
-- A `RunIterator` over the coding of a run visits the elements of the run, and stops at its end.
use ursadb.Prelude.{
  ℕ, zero, suc, ◌+◌, ◌-◌, ◌*◌, ◌^◌, ◌≤◌, ◌<◌, ◌≡◌, refl, ap, ◌∙◌, List, [], ◌∷◌, ◌++◌, arith, u32,
  length, length-append, All, IsRun, IsRunFrom, IsU32, ok, ◌>>=◌, minus_one32,
}
use ursadb.Codec.Bytes.{put_diff, add_group_fits}
use ursadb.Codec.Reader.{current_loop, current, nextpos, advance, iterate, RunIterator, begin_at}
use ursadb.Codec.Encoding.{encoding, Reads-put_diff, put_diff-cons}

current_loop-put_diff :
    (d prev : ℕ) (rest : List ℕ)
    → d < 2 ^ 32
    → current_loop (put_diff d ++ rest) prev 0 0 ≡ ok (u32 (prev + d + 1))
unfolding current_loop
current_loop-put_diff d prev rest h =
    let e : 0 + d * 2 ^ 0 ≡ d = omega arith in
    rw e at (
      Reads-put_diff {W = Unit {0}} (λ _ bytes acc shift. current_loop bytes prev acc shift)
        (λ w _. w) (λ _ acc more. ok (u32 (prev + acc + 1)))
        (λ _ g acc shift more small fits. ground (arith, add_group_fits acc g shift))
        (λ _ g acc shift more small fits. ground (arith, add_group_fits acc (128 + g) shift)) d tt 0
        0 rest (omega arith))

nextpos-put_diff : (d : ℕ) (rest : List ℕ) → d < 2 ^ 32 → nextpos (put_diff d ++ rest) ≡ ok rest
unfolding nextpos
nextpos-put_diff d rest h =
    Reads-put_diff {W = Unit {0}} (λ _ bytes _ _. nextpos bytes) (λ w _. w) (λ _ _ more. ok more)
      (λ _ g acc shift more small fits. ground arith)
      (λ _ g acc shift more small fits. ground arith) d tt 0 0 rest (omega arith)

abbrev at : List ℕ → ℕ → RunIterator
at pos prev = record { pos = pos; prev = prev }

iterate_step :
    (fuel prev value : ℕ) (pos rest : List ℕ)
    → ((b : ℕ) × (bs : List ℕ) × (pos ≡ b ∷ bs))
    → current (at pos prev) ≡ ok value
    → nextpos pos ≡ ok rest
    → iterate (suc fuel) (at pos prev)
      ≡ (iterate fuel (at rest value) >>= λ values. ok (value ∷ values))
unfolding iterate advance
iterate_step fuel prev value [] rest (b, bs, e) c n = cc
iterate_step fuel prev value (b ∷ bs) rest _ c n = rw (c, n)

-- One number in front: where the iterator stands on it, its value, and the position behind it.
module _ (x base prev : ℕ) (xs : List ℕ) (before : u32 (prev + 1) ≡ u32 base) (le : base ≤ x)
    (fits : IsU32 x) where
  encoding-cons : (b : ℕ) × (bs : List ℕ) × (encoding base (x ∷ xs) ≡ b ∷ bs)
  unfolding encoding
  encoding-cons = let (b, bs, e) = put_diff-cons (x - base) in (b, bs ++ encoding (suc x) xs, rw e)

  current-encoding : current (at (encoding base (x ∷ xs)) prev) ≡ ok x
  unfolding encoding current
  current-encoding =
      rw (current_loop-put_diff (x - base) prev (encoding (suc x) xs) (omega arith))
        (ap ok (omega arith))

  nextpos-encoding : nextpos (encoding base (x ∷ xs)) ≡ ok (encoding (suc x) xs)
  unfolding encoding
  nextpos-encoding = nextpos-put_diff (x - base) (encoding (suc x) xs) (omega arith)

length-encoding-suc :
    (x base : ℕ) (xs : List ℕ) → length (encoding (suc x) xs) < length (encoding base (x ∷ xs))
unfolding encoding
length-encoding-suc x base xs =
    let (b, bs, e) = put_diff-cons (x - base) in
    rw e (omega (arith, length-append bs (encoding (suc x) xs)))

iterate-encoding :
    (xs : List ℕ) (base prev fuel : ℕ)
    → u32 (prev + 1) ≡ u32 base
    → IsRunFrom base xs
    → All IsU32 xs
    → length (encoding base xs) ≤ fuel
    → iterate fuel (at (encoding base xs) prev) ≡ ok xs
iterate-encoding [] base prev zero b r h f = unfold iterate encoding in refl
iterate-encoding [] base prev (suc fuel) b r h f = unfold iterate encoding in refl
iterate-encoding (x ∷ xs) base prev zero b r h f =
    absurd (omega (arith, length-encoding-suc x base xs))
iterate-encoding (x ∷ xs) base prev (suc fuel) b r h f =
    iterate_step fuel prev x _ (encoding (suc x) xs) (encoding-cons x base prev xs b r.0 h.0)
      (current-encoding x base prev xs b r.0 h.0) (nextpos-encoding x base prev xs b r.0 h.0)
    ∙ rw (
        iterate-encoding xs (suc x) x fuel (omega arith) r.1 h.1
          (omega (arith, length-encoding-suc x base xs)))

-- All that an iterator from the start of a coded run visits is the run.
pub iterate-begin_at :
    (run : List ℕ)
    → IsRun run
    → All IsU32 run
    → iterate (length (encoding 0 run)) (begin_at (encoding 0 run)) ≡ ok run
unfolding begin_at
iterate-begin_at run r h = iterate-encoding run 0 minus_one32 _ (omega arith) r h (omega arith)
