-- ===== src/Codec/Bytes.antt =====
-- The two byte level steps that every writer and reader of libursa/Utils.cpp and
-- libursa/SortedRun.cpp repeats, and their arithmetic.
use ursadb.Prelude.{
  ℕ, zero, suc, ◌+◌, ◌*◌, ◌/◌, ◌%◌, ◌^◌, ◌≤◌, ◌<◌, ◌≡◌, sym, ap, ◌∙◌, Bool, List, [], ◌∷◌, arith,
  ◌==◌, u32, u64, lt_wf,
}
use mathlib.Core.Logic.{dite, dif_pos, dif_neg}
use mathlib.Core.WellFounded
use mathlib.Core.WellFounded.{Acc}
use native.Mathlib.Bridge.{le_prop}
use native.Mathlib.Nat.{div-add-mod}
use native.Mathlib.Numerals.{towards_suc}
unfoldable use native.Mathlib.Decide.{dec_lt}

-- `(next & 0x80U) == 0`
abbrev pub is_last : ℕ → Bool
is_last b = b / 128 % 2 == 0

-- `acc += (next & 0x7FU) << shift`: the shift is one of 32 bits, the sum one of 64. (A shift by 32
-- or more is undefined in C++; here it gives 0.)
unfoldable pub add_group : ℕ → ℕ → ℕ → ℕ
add_group acc b shift = u64 (acc + u32 (b % 128 * 2 ^ shift))

shift_shrinks : (d : ℕ) → (d < 128 → ⊥) → d / 128 < d
shift_shrinks d h = omega arith

-- `while (diff >= 0x80U) { put(0x80U | (diff & 0x7FU)); diff >>= 7; } put(diff);`
emit : (diff : ℕ) → Acc ◌<◌ diff → List ℕ
emit diff (Acc.intro _ smaller) =
    dite (dec_lt diff 128) (λ _. diff ∷ [])
      (λ more. (128 + diff % 128) ∷ emit (diff / 128) (smaller _ (shift_shrinks diff more)))

unfoldable pub put_diff : ℕ → List ℕ
unfolding emit shift_shrinks lt_wf dec_lt
put_diff diff = emit diff (lt_wf.apply diff)

pub add_group_fits :
    (acc g shift : ℕ)
    → acc + g % 128 * 2 ^ shift < 2 ^ 32
    → add_group acc g shift ≡ acc + g % 128 * 2 ^ shift
unfolding add_group
add_group_fits acc g shift h = omega arith

seven_more : (n : ℕ) → 2 ^ (n + 7) ≡ 2 ^ n * 128
seven_more n = simp towards_suc (omega arith)

-- A number under a shift is its lowest group and the groups above it, under theirs.
pub split_group : (d at : ℕ) → d * 2 ^ at ≡ d % 128 * 2 ^ at + d / 128 * 2 ^ (at + 7)
split_group d at =
    let high : d / 128 * 2 ^ (at + 7) ≡ d / 128 * (2 ^ at * 128) =
      ap (λ (p : ℕ). d / 128 * p) (seven_more at) in
    let whole = ap (λ (k : ℕ). k * 2 ^ at) (div-add-mod d 128) in omega (arith, whole, high)

lt-pow : (s : ℕ) → s < 2 ^ s
lt-pow zero = omega arith
lt-pow (suc s) = omega (arith, lt-pow s)

-- While a number below 2 ^ 32 has groups left, the shift does not wrap.
pub shift_small : (w s acc : ℕ) → 128 ≤ w → acc + w * 2 ^ s < 2 ^ 32 → u32 (s + 7) ≡ s + 7
shift_small w s acc h lt = grind (arith, lt-pow s)

emit_small : (d : ℕ) (w : Acc ◌<◌ d) → d < 128 → emit d w ≡ d ∷ []
unfolding emit
emit_small d (Acc.intro _ p) h = dif_pos (dec_lt d 128) le_prop h _ _

-- Which proof of termination is given makes no difference.
emit_unique : (d : ℕ) (v w : Acc ◌<◌ d) → emit d v ≡ emit d w
unfolding emit
emit_unique d (Acc.intro _ p) (Acc.intro _ q) = elim (dec_lt d 128) [
  | yes small ↦
      dif_pos (dec_lt d 128) le_prop small _ _ ∙ sym (dif_pos (dec_lt d 128) le_prop small _ _)
  | no large ↦
      dif_neg (dec_lt d 128) large _ _
      ∙ ap (λ bs. (128 + d % 128) ∷ bs)
          (emit_unique (d / 128) (p _ (shift_shrinks d large)) (q _ (shift_shrinks d large)))
      ∙ sym (dif_neg (dec_lt d 128) large _ _)
]

emit_large :
    (d : ℕ) (w : Acc ◌<◌ d)
    → 128 ≤ d
    → emit d w ≡ (128 + d % 128) ∷ emit (d / 128) (lt_wf.apply (d / 128))
unfolding emit
emit_large d (Acc.intro _ p) h =
    let large : d < 128 → ⊥ = λ l. absurd (omega arith) in
    dif_neg (dec_lt d 128) large _ _
    ∙ ap (λ bs. (128 + d % 128) ∷ bs)
        (emit_unique (d / 128) (p _ (shift_shrinks d large)) (lt_wf.apply (d / 128)))

pub put_diff_small : (d : ℕ) → d < 128 → put_diff d ≡ d ∷ []
unfolding put_diff
put_diff_small d h = emit_small d (lt_wf.apply d) h

pub put_diff_large : (d : ℕ) → 128 ≤ d → put_diff d ≡ (128 + d % 128) ∷ put_diff (d / 128)
unfolding put_diff
put_diff_large d h = emit_large d (lt_wf.apply d) h

-- Induction on the groups of a number.
pub groups_induction {ℓ} :
    (P : ℕ → Type ℓ)
    → ((d : ℕ) → d < 128 → P d)
    → ((d : ℕ) → 128 ≤ d → P (d / 128) → P d)
    → (d : ℕ) → P d
groups_induction P base step d = WellFounded.induction lt_wf {C = P} d λ k ih. elim (dec_lt k 128) [
  | yes small ↦ base k small
  | no large ↦ step k (omega arith) (ih (k / 128) (shift_shrinks k large))
]
