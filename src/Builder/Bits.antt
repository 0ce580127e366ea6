-- ===== src/Builder/Bits.antt =====
-- The flags of a byte, by a table over all bytes.
use ursadb.Prelude.{
  ℕ, zero, suc, ◌+◌, ◌<◌, ◌≡◌, refl, Bool, true, false, not, ◌&&◌, ◌||◌, ltb, ◌==◌, arith,
}
use ursadb.Builder.Bitmap.{set_flag, has_flag}

-- The test holds for `rounds` numbers from `first` on.
passes : (ℕ → Bool) → ℕ → ℕ → Bool
passes test first zero = true
passes test first (suc rounds) = test first && passes test (suc first) rounds

passes-each :
    (test : ℕ → Bool) (first rounds k : ℕ)
    → passes test first rounds ≡ true
    → k < rounds
    → test (first + k) ≡ true
unfolding passes
passes-each test first zero k h below = absurd (omega arith)
passes-each test first (suc rounds) zero h below =
    let e : first + 0 ≡ first = omega arith in rw e (ground (arith, h))
passes-each test first (suc rounds) (suc k) h below =
    let e : first + suc k ≡ suc first + k = omega arith in
    rw e (passes-each test (suc first) rounds k (ground (arith, h)) (omega arith))

passes_at :
    (test : ℕ → Bool) (rounds k : ℕ) → passes test 0 rounds ≡ true → k < rounds → test k ≡ true
passes_at test rounds k h below =
    let e : 0 + k ≡ k = omega arith in rw e at (passes-each test 0 rounds k h below)

abbrev same : Bool → Bool → Bool
same true b = b
same false b = not b

abbrev flag_test : ℕ → ℕ → ℕ → Bool
flag_test byte s t =
    ltb (set_flag byte s) 256 && same (has_flag (set_flag byte s) t) (t == s || has_flag byte t)

flags_table : passes (λ byte. passes (λ s. passes (λ t. flag_test byte s t) 0 8) 0 8) 0 256 ≡ true
unfolding passes
flags_table = refl

both_left : (a b : Bool) → a && b ≡ true → a ≡ true
both_left true b h = refl
both_left false b h = cc

both_right : (a b : Bool) → a && b ≡ true → b ≡ true
both_right true b h = h
both_right false b h = cc

same_eq : (a b : Bool) → same a b ≡ true → a ≡ b
same_eq true b h = ground arith
same_eq false b h = ground arith

not-true : (a : Bool) → not a ≡ true → a ≡ false
not-true a h = ground arith

ltb→lt : (a b : ℕ) → ltb a b ≡ true → a < b
ltb→lt a b h = ground arith

zero_table : passes (λ t. not (has_flag 0 t)) 0 8 ≡ true
unfolding passes
zero_table = refl

pub flag_of_set :
    (byte s t : ℕ)
    → byte < 256
    → s < 8
    → t < 8
    → (set_flag byte s < 256) × (has_flag (set_flag byte s) t ≡ ((t == s) || has_flag byte t))
flag_of_set byte s t hb hs ht =
    let row = passes_at _ 256 byte flags_table hb in
    let cell = passes_at _ 8 t (passes_at _ 8 s row hs) ht in
    (ltb→lt _ _ (both_left _ _ cell), same_eq _ _ (both_right _ _ cell))

pub flag_of_zero : (t : ℕ) → t < 8 → has_flag 0 t ≡ false
flag_of_zero t h = not-true _ (passes_at _ 8 t zero_table h)
