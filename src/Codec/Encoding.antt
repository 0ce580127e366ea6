-- ===== src/Codec/Encoding.antt =====
-- The coding of a run as a function of the run: the differences of its elements, less one, each in
-- groups of seven bits. What the writers emit and what the readers take is stated by it.
use ursadb.Prelude.{
  ℕ, suc, ◌+◌, ◌-◌, ◌*◌, ◌/◌, ◌%◌, ◌^◌, ◌≤◌, ◌<◌, ◌≡◌, ◌∙◌, List, [], ◌∷◌, ◌++◌, arith, u32, All,
}
use native.Mathlib.Decide.{dec_lt}
use ursadb.Codec.Bytes.{
  put_diff, split_group, shift_small, put_diff_small, put_diff_large, groups_induction,
}

-- `base` is the least number that may follow.
unfoldable pub encoding : ℕ → List ℕ → List ℕ
encoding base [] = []
encoding base (x ∷ xs) = put_diff (x - base) ++ encoding (suc x) xs

abbrev pub last_of : ℕ → List ℕ → ℕ
last_of p [] = p
last_of p (x ∷ xs) = last_of x xs

abbrev pub push_all {ℓ} : {W : Type ℓ} → (W → ℕ → W) → W → List ℕ → W
push_all push w [] = w
push_all push w (b ∷ bs) = push_all push (push w b) bs

-- Any reader that goes over the groups of a number as the code's loops do, keeping a state `W`
-- beside `acc` and `shift`, reads what `put_diff` wrote and goes on behind it.
module _ {ℓ κ} {W : Type ℓ} {C : Type κ} (reader : W → List ℕ → ℕ → ℕ → C) (push : W → ℕ → W)
    (done : W → ℕ → List ℕ → C)
    (reads_last : (w : W) (g acc shift : ℕ) (rest : List ℕ)
      → g < 128
      → acc + g * 2 ^ shift < 2 ^ 32
      → reader w (g ∷ rest) acc shift ≡ done (push w g) (acc + g * 2 ^ shift) rest)
    (reads_more : (w : W) (g acc shift : ℕ) (rest : List ℕ)
      → g < 128
      → acc + g * 2 ^ shift < 2 ^ 32
      → reader w ((128 + g) ∷ rest) acc shift
        ≡ reader (push w (128 + g)) rest (acc + g * 2 ^ shift) (u32 (shift + 7))) where
  abbrev Reads : ℕ → Type (ℓ ⊔ κ)
  Reads d =
      (w : W) (acc shift : ℕ) (rest : List ℕ)
      → acc + d * 2 ^ shift < 2 ^ 32
      → reader w (put_diff d ++ rest) acc shift
        ≡ done (push_all push w (put_diff d)) (acc + d * 2 ^ shift) rest

  Reads-large : (d : ℕ) → 128 ≤ d → Reads (d / 128) → Reads d
  Reads-large d large ih w acc shift rest h = rw (put_diff_large d large) (
      reads_more w (d % 128) acc shift (put_diff (d / 128) ++ rest) (omega arith)
        (omega (arith, split_group d shift))
      ∙ rw (shift_small d shift acc large h) (
          rw (sum) (
            ih (push w (128 + d % 128)) (acc + d % 128 * 2 ^ shift) (shift + 7) rest
              (omega (arith, split_group d shift)))))
    where
      sum : acc + d * 2 ^ shift ≡ acc + d % 128 * 2 ^ shift + d / 128 * 2 ^ (shift + 7)
      sum = omega (arith, split_group d shift)

  pub Reads-put_diff : (d : ℕ) → Reads d
  Reads-put_diff =
      groups_induction Reads
        (λ d small w acc shift rest h.
          rw (put_diff_small d small) (reads_last w d acc shift rest small h))
        Reads-large

-- Every number is written in a byte at least, and in bytes only.
pub put_diff-cons : (d : ℕ) → (b : ℕ) × (bs : List ℕ) × (put_diff d ≡ b ∷ bs)
put_diff-cons d = elim (dec_lt d 128) [
  | yes small ↦ (d, [], put_diff_small d small)
  | no large ↦ (128 + d % 128, put_diff (d / 128), put_diff_large d (omega arith))
]

abbrev pub IsByte : ℕ → Type 0
IsByte b = b < 256

pub put_diff-IsByte : (d : ℕ) → All IsByte (put_diff d)
put_diff-IsByte =
    groups_induction (λ d. All IsByte (put_diff d))
      (λ d small. rw (put_diff_small d small) (omega arith))
      (λ d large ih. rw (put_diff_large d large) (omega arith, ih))
