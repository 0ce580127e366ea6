-- ===== src/Builder/BitmapRuns.antt =====
-- The runs that `BitmapIndexBuilder` (libursa/BitmapIndexBuilder.cpp) gives for an ngram are the
-- files that were added with it.
use ursadb.Prelude.{
  ℕ, zero, suc, ◌+◌, ◌*◌, ◌/◌, ◌%◌, ◌≤◌, ◌<◌, ◌≡◌, refl, sym, ◌∙◌, Bool, true, false, ◌&&◌, ◌||◌,
  List, [], ◌∷◌, ltb, leb, ◌==◌, arith, elem, length, All, IsU32, IsRun, IsRunFrom,
  IsRunFrom-weaken, Bool-cases, inl, inr,
}
use mathlib.Core.List.{append-nil}
use ursadb.Core.{IndexType}
use ursadb.Builder.Bitmap.{
  BitmapIndexBuilder, max_files, new_bitmap, set_flag, has_flag, add_trigram, add_trigrams,
  flags_loop, get_run,
}
use ursadb.Builder.Bits.{flag_of_set, flag_of_zero}

-- Every cell of `raw_data` is a byte.
abbrev pub HasBytes : BitmapIndexBuilder → Type 0
HasBytes b = (i : ℕ) → b.raw_data i < 256

-- Looking at one place more.
module _ (f : ℕ → Bool) (rounds shift a : ℕ) where
  flag_here :
      f shift ≡ true
      → ((a == shift) || (leb (suc shift) a && ltb a (suc shift + rounds) && f a))
        ≡ (leb shift a && ltb a (shift + suc rounds) && f a)
  flag_here set = elim (Bool-cases (a == shift)) [
    | inl same ↦ let e : a ≡ shift = ground arith in rw (e, set) (ground arith)
    | inr other ↦ ground arith
  ]

  flag_away :
      f shift ≡ false
      → (leb (suc shift) a && ltb a (suc shift + rounds) && f a)
        ≡ (leb shift a && ltb a (shift + suc rounds) && f a)
  flag_away unset = elim (Bool-cases (a == shift)) [
    | inl same ↦ let e : a ≡ shift = ground arith in rw (e, unset) (ground arith)
    | inr other ↦ ground arith
  ]

-- The ids of the flags from `shift` on.
flags_loop_lem :
    (rounds byte shift a : ℕ)
    → (IsRunFrom shift (flags_loop rounds byte 0 shift))
      × (length (flags_loop rounds byte 0 shift) ≤ rounds)
      × (elem a (flags_loop rounds byte 0 shift)
          ≡ (leb shift a && ltb a (shift + rounds) && has_flag byte a))
unfolding flags_loop
flags_loop_lem zero byte shift a = (tt, omega arith, ground arith)
flags_loop_lem (suc rounds) byte shift a =
    let (run, size, member) = flags_loop_lem rounds byte (suc shift) a in
    let e : 0 * 8 + shift ≡ shift = omega arith in
    elim (Bool-cases (has_flag byte shift)) [
      | inl set ↦
          rw (set, e)
            (
              (omega arith, run),
              omega arith,
              rw member (flag_here (λ n. has_flag byte n) rounds shift a set),
            )
      | inr unset ↦ rw unset (
        IsRunFrom-weaken shift (suc shift) _ (omega arith) run,
        omega arith,
        rw member (flag_away (λ n. has_flag byte n) rounds shift a unset),
      )
    ]

get_run-flags :
    (b : BitmapIndexBuilder) (val : ℕ) → get_run b val ≡ flags_loop 8 (b.raw_data val) 0 0
unfolding get_run
get_run-flags b val =
    let e : 1 * val + 0 ≡ val = omega arith in rw e (append-nil (flags_loop 8 (b.raw_data val) 0 0))

-- Ids below a bound.
run_small :
    (bound lo : ℕ) (xs : List ℕ)
    → ((a : ℕ) → elem a xs ≡ true → a < bound)
    → bound ≤ 8
    → All IsU32 xs
run_small bound lo [] h small = tt
run_small bound lo (x ∷ xs) h small =
    (omega (arith, h x (ground arith)), run_small bound lo xs (λ a m. h a (ground arith)) small)

-- A run of the builder: increasing ids of at most eight files, those whose flag is set.
module _ (b : BitmapIndexBuilder) (val : ℕ) where
  pub get_run-IsRun : IsRun (get_run b val)
  get_run-IsRun = rw (get_run-flags b val) (flags_loop_lem 8 (b.raw_data val) 0 0).0

  pub length-get_run : length (get_run b val) ≤ max_files
  length-get_run = rw (get_run-flags b val) (flags_loop_lem 8 (b.raw_data val) 0 0).1

  pub elem-get_run : (a : ℕ) → elem a (get_run b val) ≡ (ltb a 8 && has_flag (b.raw_data val) a)
  elem-get_run a =
      rw (get_run-flags b val) ((flags_loop_lem 8 (b.raw_data val) 0 a).2 ∙ ground arith)

  pub get_run-small : All IsU32 (get_run b val)
  get_run-small =
      run_small 8 0 (get_run b val) (λ a m. ground (arith, elem-get_run a)) (omega arith)

pub new_bitmap-HasBytes : (type : IndexType) → HasBytes (new_bitmap type)
unfolding new_bitmap
new_bitmap-HasBytes type i = omega arith

pub elem-new_bitmap :
    (type : IndexType) (val a : ℕ) → elem a (get_run (new_bitmap type) val) ≡ false
unfolding new_bitmap
elem-new_bitmap type val a = elem-get_run (new_bitmap type) val a ∙ elim (Bool-cases (ltb a 8)) [
  | inl inside ↦ rw (inside) (flag_of_zero a (ground arith))
  | inr outside ↦ rw outside refl
]

-- Adding an ngram of a file sets the flag of the file, and no other.
module _ (b : BitmapIndexBuilder) (bytes : HasBytes b) (fid : ℕ) (below : fid < max_files) where
  add_trigram-HasBytes : (val : ℕ) → HasBytes (add_trigram b fid val)
  unfolding add_trigram
  add_trigram-HasBytes val i = elim (Bool-cases (i == val * 1 + fid / 8)) [
    | inl here ↦
        rw here (flag_of_set (b.raw_data i) (fid % 8) 0 (bytes i) (omega arith) (omega arith)).0
    | inr away ↦ rw away (bytes i)
  ]

  -- The cell of the ngram, and another.
  add_trigram-here :
      (val : ℕ) → (add_trigram b fid val).raw_data val ≡ set_flag (b.raw_data val) fid
  unfolding add_trigram
  add_trigram-here val =
      let cell : (val == val * 1 + fid / 8) ≡ true = ground arith in
      let flag : fid % 8 ≡ fid = omega arith in rw (cell, flag) refl

  add_trigram-away :
      (val t : ℕ) → (t == val) ≡ false → (add_trigram b fid val).raw_data t ≡ b.raw_data t
  unfolding add_trigram
  add_trigram-away val t other =
      let cell : (t == val * 1 + fid / 8) ≡ false = ground arith in rw cell refl

  elem-add_trigram :
      (val t a : ℕ)
      → elem a (get_run (add_trigram b fid val) t)
        ≡ ((t == val) && (a == fid) || elem a (get_run b t))
  elem-add_trigram val t a =
      let after = elem-get_run (add_trigram b fid val) t a in
      let before = elem-get_run b t a in
      elim (Bool-cases (t == val)) [
        | inr other ↦ after ∙ rw (add_trigram-away val t other, other) (sym before)
        | inl same ↦
            let e : t ≡ val = ground arith in
            elim (Bool-cases (ltb a 8)) [
              | inr outside ↦ ground (arith, after, before)
              | inl inside ↦
                  let flag =
                    (flag_of_set (b.raw_data val) fid a (bytes val) below (ground arith)).1 in
                  after ∙ rw (before, same, inside, e) (rw (add_trigram-here val) flag)
            ]
      ]

-- All the ngrams of a file.
pub elem-add_trigrams :
    (vals : List ℕ) (b : BitmapIndexBuilder) (fid : ℕ)
    → HasBytes b
    → fid < max_files
    → HasBytes (add_trigrams b fid vals)
      × ((t a : ℕ)
          → elem a (get_run (add_trigrams b fid vals) t)
            ≡ ((a == fid) && elem t vals || elem a (get_run b t)))
unfolding add_trigrams
elem-add_trigrams [] b fid bytes below = (bytes, λ t a. ground arith)
elem-add_trigrams (val ∷ vals) b fid bytes below =
    let (kept, member) =
      elem-add_trigrams vals (add_trigram b fid val) fid
        (add_trigram-HasBytes b bytes fid below val) below in
    (kept, λ t a. member t a ∙ ground (arith, elem-add_trigram b bytes fid below val t a))
