-- ===== src/Ngram/Wide.antt =====
-- `gen_wide_b64grams` of libursa/Utils.cpp: which ngrams it generates, and which it misses.
use ursadb.Prelude.{
  ℕ, ◌+◌, ◌%◌, ◌≤◌, ◌≡◌, refl, true, false, List, [], ◌∷◌, ◌++◌, arith, ltb, leb, ◌==◌,
  if◌then◌else◌, none, some, Option-cases, Bool-cases, inl, inr, length, length-append, elem, ◌∙◌,
}
use ursadb.Ngram.Generators.{get_b64_value, push_b64, wide_loop, gen_wide_b64grams}
use ursadb.Ngram.Complete.{b64gram_of, pushed}

wide_loop-letter :
    (gram good_run a v g : ℕ) (mem : List ℕ)
    → good_run % 2 ≡ 0
    → get_b64_value a ≡ some v
    → elem g (wide_loop (push_b64 gram v) (good_run + 1 + 1) mem) ≡ true
    → elem g (wide_loop gram good_run (a ∷ 0 ∷ mem)) ≡ true
unfolding wide_loop
wide_loop-letter gram good_run a v g mem even e h =
    let not_odd : (good_run % 2 == 1) ≡ false = ground arith in
    let odd : ((good_run + 1) % 2 == 1) ≡ true = ground arith in
    rw (not_odd, e, odd, wide_loop) (ground arith)

wide_loop-last :
    (gram good_run a v g : ℕ) (mem : List ℕ)
    → good_run % 2 ≡ 0
    → get_b64_value a ≡ some v
    → push_b64 gram v ≡ g
    → 6 ≤ good_run
    → elem g (wide_loop gram good_run (a ∷ 0 ∷ mem)) ≡ true
unfolding wide_loop
wide_loop-last gram good_run a v g mem even e h enough =
    let not_odd : (good_run % 2 == 1) ≡ false = ground arith in
    let odd : ((good_run + 1) % 2 == 1) ≡ true = ground arith in
    rw (not_odd, e, odd, wide_loop) (ground arith)

-- A byte that is no letter leaves an even number of good bytes.
wide_loop-other :
    (gram good_run q g : ℕ) (mem : List ℕ)
    → get_b64_value q ≡ none
    → ((n : ℕ) → n % 2 ≡ 0 → elem g (wide_loop gram n mem) ≡ true)
    → elem g (wide_loop gram good_run (q ∷ mem)) ≡ true
unfolding wide_loop
wide_loop-other gram good_run q g mem stops h = elim (Bool-cases (good_run % 2 == 1)) [
  | inl odd ↦
      let n = if q == 0 then good_run + 1 else 0 in
      rw (odd, wide_loop) (ground (arith, h n (ground arith)))
  | inr even ↦ rw (even, stops, wide_loop) (h 0 refl)
]

-- Whatever byte is put in front, what is generated from every state on is generated.
wide_loop-any :
    (q g : ℕ) (mem : List ℕ)
    → ((gram n : ℕ) → elem g (wide_loop gram n mem) ≡ true)
    → (gram n : ℕ) → elem g (wide_loop gram n (q ∷ mem)) ≡ true
unfolding wide_loop
wide_loop-any q g mem h gram n = elim (Bool-cases (n % 2 == 1)) [
  | inl odd ↦ rw (odd, wide_loop) (ground (arith, h gram (if q == 0 then n + 1 else 0)))
  | inr even ↦ elim (Option-cases (get_b64_value q)) [
    | inl stops ↦ rw (even, stops, wide_loop) (h gram 0)
    | inr (v, e) ↦ rw (even, e, wide_loop) (h (push_b64 gram v) (n + 1))
  ]
]

abbrev pub wide_window : ℕ → ℕ → ℕ → ℕ → List ℕ → List ℕ
wide_window a b c d post = a ∷ 0 ∷ b ∷ 0 ∷ c ∷ 0 ∷ d ∷ 0 ∷ post

length_eight :
    (pre : List ℕ) (a b c d : ℕ) (post : List ℕ)
    → ltb (length (pre ++ wide_window a b c d post)) 8 ≡ false
length_eight [] a b c d post = ground arith
length_eight (p ∷ pre) a b c d post = ground (arith, length_eight pre a b c d post)

module _ (a b c d v w x y : ℕ) (post : List ℕ) (is_v : get_b64_value a ≡ some v)
    (is_w : get_b64_value b ≡ some w) (is_x : get_b64_value c ≡ some x)
    (is_y : get_b64_value d ≡ some y) where
  wide_loop-window :
      (gram n : ℕ)
      → n % 2 ≡ 0
      → elem (b64gram_of v w x y) (wide_loop gram n (wide_window a b c d post)) ≡ true
  wide_loop-window gram n even =
      let g = b64gram_of v w x y in
      wide_loop-letter gram n a v g _ even is_v (
        wide_loop-letter _ _ b w g _ (omega arith) is_w (
          wide_loop-letter _ _ c x g _ (omega arith) is_x (
            wide_loop-last _ _ d y g post (omega arith) is_y
              (pushed a b c d v w x y post is_v is_w is_x is_y gram) (omega arith))))

  wide_loop_complete :
      (pre : List ℕ) (q : ℕ)
      → get_b64_value q ≡ none
      → (gram n : ℕ)
      → elem (b64gram_of v w x y) (wide_loop gram n (pre ++ q ∷ wide_window a b c d post)) ≡ true
  wide_loop_complete [] q other gram n = wide_loop-other gram n q _ _ other (wide_loop-window gram)
  wide_loop_complete (p ∷ pre) q other gram n =
      wide_loop-any p _ _ (λ gram' n'. wide_loop_complete pre q other gram' n') gram n

  -- Four wide letters in a row are generated at the start of a file, and behind a byte that is no
  -- letter.
  pub gen_wide_b64grams_complete :
      (pre : List ℕ) (q : ℕ)
      → get_b64_value q ≡ none
      → (elem (b64gram_of v w x y) (gen_wide_b64grams (wide_window a b c d post)) ≡ true)
        × (elem (b64gram_of v w x y) (gen_wide_b64grams (pre ++ q ∷ wide_window a b c d post))
            ≡ true)
  unfolding gen_wide_b64grams
  gen_wide_b64grams_complete pre q other = (
    rw (length_eight [] a b c d post) (wide_loop-window 0 0 refl),
    rw (length_behind) (wide_loop_complete pre q other 0 0),
  )
    where
      length_behind : ltb (length (pre ++ q ∷ wide_window a b c d post)) 8 ≡ false
      length_behind = rw (length-append pre (q ∷ wide_window a b c d post)) (ground arith)

letter_not_zero : (b v : ℕ) → get_b64_value b ≡ some v → (b == 0) ≡ false
unfolding get_b64_value
letter_not_zero b v h = ground arith

-- The loop's steps by the parity of `good_run`.
module _ (gram good_run : ℕ) (mem : List ℕ) where
  at_letter :
      (b v : ℕ)
      → (good_run % 2 == 1) ≡ false
      → get_b64_value b ≡ some v
      → wide_loop gram good_run (b ∷ mem) ≡ wide_loop (push_b64 gram v) (good_run + 1) mem
  unfolding wide_loop
  at_letter b v even e = rw (even, e, wide_loop) refl

  at_other :
      (b : ℕ)
      → (good_run % 2 == 1) ≡ false
      → get_b64_value b ≡ none
      → wide_loop gram good_run (b ∷ mem) ≡ wide_loop gram 0 mem
  unfolding wide_loop
  at_other b even e = rw (even, e, wide_loop) refl

  at_zero :
      (good_run % 2 == 1) ≡ true
      → leb 8 (good_run + 1) ≡ false
      → wide_loop gram good_run (0 ∷ mem) ≡ wide_loop gram (good_run + 1) mem
  unfolding wide_loop
  at_zero odd few = rw (odd, few, wide_loop) refl

  at_break :
      (b : ℕ)
      → (good_run % 2 == 1) ≡ true
      → (b == 0) ≡ false
      → wide_loop gram good_run (b ∷ mem) ≡ wide_loop gram 0 mem
  unfolding wide_loop
  at_break b odd other = rw (odd, other, wide_loop) refl

nothing_left : (gram n : ℕ) → wide_loop gram n [] ≡ []
unfolding wide_loop
nothing_left gram n = refl

zero_is_none : get_b64_value 0 ≡ none
unfolding get_b64_value
zero_is_none = refl

-- Behind a letter, four wide letters in a row are missed: the first is taken for the letter's
-- second byte.
pub gen_wide_b64grams-misses :
    (z a b c d u v w x y : ℕ)
    → get_b64_value z ≡ some u
    → get_b64_value a ≡ some v
    → get_b64_value b ≡ some w
    → get_b64_value c ≡ some x
    → get_b64_value d ≡ some y
    → gen_wide_b64grams (z ∷ wide_window a b c d []) ≡ []
unfolding gen_wide_b64grams
gen_wide_b64grams-misses z a b c d u v w x y is_u is_v is_w is_x is_y =
    at_letter 0 0 (wide_window a b c d []) z u refl is_u
    ∙ at_break (push_b64 0 u) 1 (0 ∷ after_a) a refl (letter_not_zero a v is_v)
    ∙ at_other (push_b64 0 u) 0 after_a 0 refl zero_is_none
    ∙ at_letter (push_b64 0 u) 0 (0 ∷ after_b) b w refl is_w
    ∙ at_zero with_b 1 after_b refl refl
    ∙ at_letter with_b 2 (0 ∷ after_c) c x refl is_x
    ∙ at_zero with_c 3 after_c refl refl
    ∙ at_letter with_c 4 (0 ∷ []) d y refl is_y
    ∙ at_zero (push_b64 with_c y) 5 [] refl refl
    ∙ nothing_left (push_b64 with_c y) 6
  where
    with_b : ℕ
    with_b = push_b64 (push_b64 0 u) w

    with_c : ℕ
    with_c = push_b64 with_b x

    after_c : List ℕ
    after_c = d ∷ 0 ∷ []

    after_b : List ℕ
    after_b = c ∷ 0 ∷ after_c

    after_a : List ℕ
    after_a = b ∷ 0 ∷ after_b
