-- ===== src/SortedRun/Represents.antt =====
-- Both representations of a `SortedRun` (libursa/SortedRun.cpp) behave as the run that they stand
-- for.
use ursadb.Prelude.{
  ℕ, ◌-◌, ◌≡◌, refl, ap, ◌⊎◌, inl, inr, List, [], ◌∷◌, arith, ok, All, IsRun, IsU32,
}
use ursadb.Codec.Encoding.{encoding, put_diff-cons}
use ursadb.Codec.RoundTrip.{read_compressed_run-encoding}
use ursadb.Codec.Iterator.{iterate-begin_at}
use ursadb.SortedRun.Sets.{
  set_union, set_intersection, set_union-IsRunFrom, set_intersection-IsRunFrom, set_union-All,
  set_intersection-All,
}
use ursadb.SortedRun.Runs.{
  SortedRun, of_sequence, of_run, empty, range, comp_range, decompress, decompressed, any_range,
  do_or, do_and, is_nil,
}

pub record Represents (r : SortedRun) (ids : List ℕ) : Type 0 where
  pub is_run : IsRun ids
  pub fits : All IsU32 ids
  pub shape : (r ≡ of_sequence ids) ⊎ (r ≡ of_run (encoding 0 ids))

pub of_sequence-Represents :
    (ids : List ℕ) → IsRun ids → All IsU32 ids → Represents (of_sequence ids) ids
of_sequence-Represents ids r h = record { is_run = r; fits = h; shape = inl refl }

is_nil-encoding : (base : ℕ) (ids : List ℕ) → is_nil (encoding base ids) ≡ is_nil ids
unfolding encoding
is_nil-encoding base [] = refl
is_nil-encoding base (x ∷ xs) = let (b, bs, e) = put_diff-cons (x - base) in rw e

pub range-of_sequence : (ids : List ℕ) → range (of_sequence ids) ≡ ok ids
unfolding range
range-of_sequence [] = refl
range-of_sequence (x ∷ xs) = refl

decompress-of_run :
    (ids : List ℕ)
    → IsRun ids
    → All IsU32 ids
    → decompress (of_run (encoding 0 ids)) ≡ of_sequence ids
unfolding decompress
decompress-of_run [] r h = unfold encoding in refl
decompress-of_run (x ∷ xs) r h =
    rw (is_nil-encoding 0 (x ∷ xs)) (ap of_sequence (read_compressed_run-encoding (x ∷ xs) r h))

any_range-of_run :
    (ids : List ℕ) → IsRun ids → All IsU32 ids → any_range (of_run (encoding 0 ids)) ≡ ok ids
unfolding any_range range comp_range
any_range-of_run [] r h = unfold encoding in refl
any_range-of_run (x ∷ xs) r h = rw (is_nil-encoding 0 (x ∷ xs)) (iterate-begin_at (x ∷ xs) r h)

empty-of_run : (ids : List ℕ) → empty (of_run (encoding 0 ids)) ≡ is_nil ids
unfolding empty
empty-of_run ids = is_nil-encoding 0 ids

module _ {r : SortedRun} {ids : List ℕ} (rep : Represents r ids) where
  pub decompress-Represents : decompress r ≡ of_sequence ids
  decompress-Represents = elim rep.shape [
    | inl e ↦ rw e (unfold decompress in refl)
    | inr e ↦ rw e (decompress-of_run ids rep.is_run rep.fits)
  ]

  pub empty-Represents : empty r ≡ is_nil ids
  empty-Represents = elim rep.shape [
    | inl e ↦ rw e (unfold empty in ground arith)
    | inr e ↦ rw e (empty-of_run ids)
  ]

  any_range-Represents : any_range r ≡ ok ids
  any_range-Represents = elim rep.shape [
    | inl e ↦ rw e (unfold any_range in range-of_sequence ids)
    | inr e ↦ rw e (any_range-of_run ids rep.is_run rep.fits)
  ]

  pub decompressed-Represents : decompressed r ≡ ids
  unfolding decompressed
  decompressed-Represents = ap (λ (t : SortedRun). t.sequence) decompress-Represents

module _ {r s : SortedRun} {xs ys : List ℕ} (left : Represents r xs) (right : Represents s ys) where
  -- `do_or` never throws, and gives the run of the ids that are in either.
  pub do_or-Represents : (t : SortedRun) × (do_or r s ≡ ok t) × Represents t (set_union ys xs)
  unfolding do_or
  do_or-Represents = (
    of_sequence (set_union ys xs),
    rw (any_range-Represents right, decompress-Represents left, range-of_sequence xs),
    of_sequence-Represents (set_union ys xs) (set_union-IsRunFrom 0 ys xs right.is_run left.is_run)
        (set_union-All IsU32 ys xs right.fits left.fits),
  )

  -- `do_and` never throws, and gives the run of the ids that are in both.
  pub do_and-Represents :
      (t : SortedRun) × (do_and r s ≡ ok t) × Represents t (set_intersection ys xs)
  unfolding do_and
  do_and-Represents = (
    of_sequence (set_intersection ys xs),
    rw (any_range-Represents right, decompress-Represents left, range-of_sequence xs),
    of_sequence-Represents (set_intersection ys xs)
        (set_intersection-IsRunFrom 0 ys xs right.is_run left.is_run)
        (set_intersection-All IsU32 ys xs right.fits left.fits),
  )
