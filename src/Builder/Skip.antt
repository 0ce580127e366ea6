-- ===== src/Builder/Skip.antt =====
-- Ngrams with no files between two that have some, in the layout of an index.
use ursadb.Prelude.{
  ℕ, zero, suc, ◌+◌, ◌^◌, ◌≤◌, ◌<◌, ◌≡◌, refl, ap, ◌∙◌, true, List, [], ◌∷◌, ◌++◌, ltb, arith,
  length,
}
use ursadb.Codec.Encoding.{encoding}
use ursadb.Index.Layout.{coded, offsets_of}
use ursadb.Builder.Flat.{fill, int_to_u64}

-- The runs from `i` on are all that counts.
pub coded-ext :
    (run run' : ℕ → List ℕ) (i count : ℕ)
    → ((t : ℕ) → i ≤ t → run t ≡ run' t)
    → coded run i count ≡ coded run' i count
unfolding coded
coded-ext run run' i zero h = refl
coded-ext run run' i (suc count) h =
    rw (h i (omega arith), coded-ext run run' (suc i) count (λ t le. h t (omega arith))) refl

pub offsets_of-ext :
    (run run' : ℕ → List ℕ) (offset i count : ℕ)
    → ((t : ℕ) → i ≤ t → run t ≡ run' t)
    → offsets_of run offset i count ≡ offsets_of run' offset i count
unfolding offsets_of
offsets_of-ext run run' offset i zero h = refl
offsets_of-ext run run' offset i (suc count) h =
    let next = offset + length (encoding 0 (run' i)) in
    rw (h i (omega arith), offsets_of-ext run run' next (suc i) count (λ t le. h t (omega arith)))
      refl

pub coded-skip :
    (run : ℕ → List ℕ) (i m n : ℕ)
    → ((t : ℕ) → i ≤ t → t < i + m → run t ≡ [])
    → coded run i (m + n) ≡ coded run (i + m) n
unfolding coded
coded-skip run i zero n h =
    let e : 0 + n ≡ n = omega arith in let f : i + 0 ≡ i = omega arith in rw (e, f) refl
coded-skip run i (suc m) n h =
    let e : suc m + n ≡ suc (m + n) = omega arith in
    let f : i + suc m ≡ suc i + m = omega arith in
    let none : encoding 0 [] ≡ [] = unfold encoding in refl in
    rw (e, f, h i (omega arith) (omega arith), none)
      (coded-skip run (suc i) m n (λ t le lt. h t (omega arith) (omega arith)))

pub offsets_of-skip :
    (run : ℕ → List ℕ) (offset i m n : ℕ)
    → offset < 2 ^ 31
    → ((t : ℕ) → i ≤ t → t < i + m → run t ≡ [])
    → offsets_of run offset i (m + n) ≡ fill m offset ++ offsets_of run offset (i + m) n
unfolding offsets_of fill
offsets_of-skip run offset i zero n small h =
    let e : 0 + n ≡ n = omega arith in let f : i + 0 ≡ i = omega arith in rw (e, f) refl
offsets_of-skip run offset i (suc m) n small h =
    let e : suc m + n ≡ suc (m + n) = omega arith in
    let f : i + suc m ≡ suc i + m = omega arith in
    let positive : ltb offset (2 ^ 31) ≡ true = ground arith in
    let none : encoding 0 [] ≡ [] = unfold encoding in refl in
    let z : offset + 0 ≡ offset = omega arith in
    rw
      (
        e,
        f,
        positive,
        h i (omega arith) (omega arith),
        none,
        z,
        offsets_of-skip run offset (suc i) m n small (λ t le lt. h t (omega arith) (omega arith)),
      )
      refl

-- One cell more.
pub fill-suc : (m offset : ℕ) → fill (suc m) offset ≡ fill m offset ++ int_to_u64 offset ∷ []
unfolding fill
fill-suc zero offset = refl
fill-suc (suc m) offset = ap (λ more. int_to_u64 offset ∷ more) (fill-suc m offset)

pub coded-none :
    (run : ℕ → List ℕ) (i count : ℕ) → ((t : ℕ) → i ≤ t → run t ≡ []) → coded run i count ≡ []
coded-none run i count h =
    let e : count + 0 ≡ count = omega arith in
    rw e at (coded-skip run i count 0 (λ t le lt. h t le)) ∙ unfold coded in refl

pub offsets_of-none :
    (run : ℕ → List ℕ) (offset i count : ℕ)
    → offset < 2 ^ 31
    → ((t : ℕ) → i ≤ t → run t ≡ [])
    → offsets_of run offset i count ≡ fill (suc count) offset
offsets_of-none run offset i count small h =
    let e : count + 0 ≡ count = omega arith in
    let positive : int_to_u64 offset ≡ offset = ground arith in
    let last : offsets_of run offset (i + count) 0 ≡ offset ∷ [] = unfold offsets_of in refl in
    rw e at (offsets_of-skip run offset i count 0 small (λ t le lt. h t le))
    ∙ rw (last, fill-suc count offset, positive) refl
