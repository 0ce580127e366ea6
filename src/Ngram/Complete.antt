-- ===== src/Ngram/Complete.antt =====
-- The generators of libursa/Utils.cpp miss no ngram of a file, with one exception for wide8.
use ursadb.Prelude.{
  ℕ, ◌+◌, ◌*◌, ◌%◌, ◌^◌, ◌≤◌, ◌<◌, ◌≡◌, true, false, List, [], ◌∷◌, ◌++◌, arith, ltb, some,
  Option-cases, inl, inr, length, elem,
}
use ursadb.Codec.Encoding.{IsByte}
use ursadb.Ngram.Generators.{
  get_b64_value, trigrams_loop, gen_trigrams, push_b64, b64grams_loop, gen_b64grams, hash_gram,
  h4grams_loop, gen_h4grams,
}

-- Three bytes as a number.
abbrev pub trigram_of : ℕ → ℕ → ℕ → ℕ
trigram_of a b c = (a * 256 + b) * 256 + c

module _ (a b c : ℕ) (fits_a : IsByte a) (fits_b : IsByte b) (fits_c : IsByte c)
    (post : List ℕ) where
  trigrams_loop_complete :
      (gram : ℕ) (pre : List ℕ)
      → elem (trigram_of a b c) (trigrams_loop gram (pre ++ a ∷ b ∷ c ∷ post)) ≡ true
  unfolding trigrams_loop
  trigrams_loop_complete gram [] = ground arith
  trigrams_loop_complete gram (p ∷ pre) =
      ground (arith, trigrams_loop_complete (gram % 2 ^ 16 * 2 ^ 8 + p) pre)

  -- Every three bytes of a file in a row are generated.
  pub gen_trigrams_complete :
      (pre : List ℕ) → elem (trigram_of a b c) (gen_trigrams (pre ++ a ∷ b ∷ c ∷ post)) ≡ true
  unfolding gen_trigrams trigrams_loop
  gen_trigrams_complete [] = ground arith
  gen_trigrams_complete (p ∷ []) = ground arith
  gen_trigrams_complete (p ∷ q ∷ []) = ground arith
  gen_trigrams_complete (p ∷ q ∷ r ∷ pre) = trigrams_loop_complete _ (r ∷ pre)

-- The hash of four bytes.
abbrev pub hash_of : ℕ → ℕ → ℕ → ℕ → ℕ
hash_of a b c d = hash_gram (trigram_of a b c * 256 + d)

length_four :
    (pre : List ℕ) (a b c d : ℕ) (post : List ℕ)
    → ltb (length (pre ++ a ∷ b ∷ c ∷ d ∷ post)) 4 ≡ false
length_four [] a b c d post = ground arith
length_four (p ∷ pre) a b c d post = ground (arith, length_four pre a b c d post)

module _ (a b c d : ℕ) (post : List ℕ) where
  module _ (fits_a : IsByte a) (fits_b : IsByte b) (fits_c : IsByte c) (fits_d : IsByte d) where
    shifted :
        (gram : ℕ)
        → (((gram % 2 ^ 24 * 2 ^ 8 + a) % 2 ^ 24 * 2 ^ 8 + b) % 2 ^ 24 * 2 ^ 8 + c) % 2 ^ 24 * 2 ^ 8
            + d
          ≡ trigram_of a b c * 256 + d
    shifted gram = omega arith

    h4grams_loop_complete :
        (gram offset : ℕ) (pre : List ℕ)
        → elem (hash_of a b c d) (h4grams_loop gram offset (pre ++ a ∷ b ∷ c ∷ d ∷ post)) ≡ true
    unfolding h4grams_loop
    h4grams_loop_complete gram offset [] = rw (shifted gram) (ground arith)
    h4grams_loop_complete gram offset (p ∷ pre) =
        ground (arith, h4grams_loop_complete (gram % 2 ^ 24 * 2 ^ 8 + p) (offset + 1) pre)

    -- Every four bytes of a file in a row are generated.
    pub gen_h4grams_complete :
        (pre : List ℕ) → elem (hash_of a b c d) (gen_h4grams (pre ++ a ∷ b ∷ c ∷ d ∷ post)) ≡ true
    unfolding gen_h4grams
    gen_h4grams_complete pre = rw (length_four pre a b c d post) (h4grams_loop_complete 0 0 pre)

pub get_b64_value-lt : (a v : ℕ) → get_b64_value a ≡ some v → v < 64
unfolding get_b64_value
get_b64_value-lt a v h = ground arith

-- What is generated behind a letter is generated with it.
b64grams_loop-letter :
    (gram good_run a v g : ℕ) (mem : List ℕ)
    → get_b64_value a ≡ some v
    → elem g (b64grams_loop (push_b64 gram v) (good_run + 1) mem) ≡ true
    → elem g (b64grams_loop gram good_run (a ∷ mem)) ≡ true
unfolding b64grams_loop
b64grams_loop-letter gram good_run a v g mem e h = rw (e, b64grams_loop) (ground arith)

b64grams_loop-last :
    (gram good_run a v g : ℕ) (mem : List ℕ)
    → get_b64_value a ≡ some v
    → push_b64 gram v ≡ g
    → 3 ≤ good_run
    → elem g (b64grams_loop gram good_run (a ∷ mem)) ≡ true
unfolding b64grams_loop
b64grams_loop-last gram good_run a v g mem e h enough = rw (e, b64grams_loop) (ground arith)

-- Four values of six bits as a number.
abbrev pub b64gram_of : ℕ → ℕ → ℕ → ℕ → ℕ
b64gram_of v w x y = ((v * 64 + w) * 64 + x) * 64 + y

module _ (a b c d v w x y : ℕ) (post : List ℕ) (is_v : get_b64_value a ≡ some v)
    (is_w : get_b64_value b ≡ some w) (is_x : get_b64_value c ≡ some x)
    (is_y : get_b64_value d ≡ some y) where
  pub pushed :
      (gram : ℕ) → push_b64 (push_b64 (push_b64 (push_b64 gram v) w) x) y ≡ b64gram_of v w x y
  pushed gram = omega (
    arith,
    get_b64_value-lt a v is_v,
    get_b64_value-lt b w is_w,
    get_b64_value-lt c x is_x,
    get_b64_value-lt d y is_y,
  )

  b64grams_loop_complete :
      (gram good_run : ℕ) (pre : List ℕ)
      → elem (b64gram_of v w x y) (b64grams_loop gram good_run (pre ++ a ∷ b ∷ c ∷ d ∷ post)) ≡ true
  unfolding b64grams_loop
  b64grams_loop_complete gram good_run [] =
      let g = b64gram_of v w x y in
      b64grams_loop-letter gram good_run a v g (b ∷ c ∷ d ∷ post) is_v (
        b64grams_loop-letter _ _ b w g (c ∷ d ∷ post) is_w (
          b64grams_loop-letter _ _ c x g (d ∷ post) is_x
            (b64grams_loop-last _ _ d y g post is_y (pushed gram) (omega arith))))
  b64grams_loop_complete gram good_run (p ∷ pre) = elim (Option-cases (get_b64_value p)) [
    | inl stops ↦ rw (stops, b64grams_loop) (b64grams_loop_complete gram 0 pre)
    | inr (next, e) ↦
        rw (e, b64grams_loop)
          (ground (arith, b64grams_loop_complete (push_b64 gram next) (good_run + 1) pre))
  ]

  -- Every four letters of a file in a row are generated.
  pub gen_b64grams_complete :
      (pre : List ℕ) → elem (b64gram_of v w x y) (gen_b64grams (pre ++ a ∷ b ∷ c ∷ d ∷ post)) ≡ true
  unfolding gen_b64grams
  gen_b64grams_complete pre = rw (length_four pre a b c d post) (b64grams_loop_complete 0 0 pre)
