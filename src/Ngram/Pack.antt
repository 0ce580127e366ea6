-- ===== src/Ngram/Pack.antt =====
-- Packing bytes into a number and taking them out again.
use ursadb.Prelude.{
  ℕ, suc, ◌+◌, ◌*◌, ◌/◌, ◌^◌, ◌≡◌, refl, sym, ap, List, [], ◌∷◌, arith, length, All,
}
use native.Mathlib.Nat.{div-div-eq-div-mul}
use ursadb.Codec.Encoding.{IsByte}
use ursadb.Ngram.Convert.{bytes_of}

abbrev pub pack : ℕ → List ℕ → ℕ
pack acc [] = acc
pack acc (b ∷ bs) = pack (acc * 256 + b) bs

pow_suc : (n : ℕ) → 256 ^ suc n ≡ 256 ^ n * 256
pow_suc n = omega arith

pack-div : (acc : ℕ) (bs : List ℕ) → All IsByte bs → pack acc bs / 256 ^ length bs ≡ acc
pack-div acc [] h = omega arith
pack-div acc (b ∷ bs) h =
    rw
      (
        pow_suc (length bs),
        sym (div-div-eq-div-mul (pack (acc * 256 + b) bs) (256 ^ length bs) 256),
        pack-div (acc * 256 + b) bs h.1,
      )
      (omega arith)

pub bytes_of-pack :
    (acc : ℕ) (bs : List ℕ) → All IsByte bs → bytes_of (length bs) (pack acc bs) ≡ bs
unfolding bytes_of
bytes_of-pack acc [] h = refl
bytes_of-pack acc (b ∷ bs) h =
    rw (pack-div (acc * 256 + b) bs h.1, bytes_of-pack (acc * 256 + b) bs h.1)
      (ap (λ t. t ∷ bs) (omega arith))
