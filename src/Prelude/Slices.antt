-- ===== src/Prelude/Slices.antt =====
-- Parts of a list cut out by native numbers: `take` and `drop` at the end of a known front.
use Prim.Native.Nat.{ℕ, suc, ◌+◌}
use mathlib.Core.Path.{◌≡◌, refl}
use mathlib.Core.List.{List, [], ◌∷◌, ◌++◌}
use native.Mathlib.Omega.{arith}
use ursadb.Prelude.Lists.{length, take, drop}

module _ {ℓ} {A : Type ℓ} where
  pub drop-append : (xs ys : List A) (n : ℕ) → drop (length xs + n) (xs ++ ys) ≡ drop n ys
  drop-append [] ys n = let e : 0 + n ≡ n = omega arith in rw e refl
  drop-append (x ∷ xs) ys n =
      let e : suc (length xs) + n ≡ suc (length xs + n) = omega arith in rw e (drop-append xs ys n)

  pub take-append : (xs ys : List A) → take (length xs) (xs ++ ys) ≡ xs
  take-append [] ys = refl
  take-append (x ∷ xs) ys = rw (take-append xs ys) refl

  -- What is behind a front, and the front itself, where the length is known by an equation.
  pub drop_front : (xs ys : List A) (n : ℕ) → n ≡ length xs → drop n (xs ++ ys) ≡ ys
  drop_front [] ys n e = rw e refl
  drop_front (x ∷ xs) ys n e = rw e (drop_front xs ys (length xs) refl)

  pub take_front : (xs ys : List A) (n : ℕ) → n ≡ length xs → take n (xs ++ ys) ≡ xs
  take_front xs ys n e = rw e (take-append xs ys)

  -- The slice between two offsets into a list whose parts are known.
  pub slice_lem :
      (front part back : List A) (n at : ℕ)
      → at ≡ length front
      → n ≡ length part
      → take n (drop at (front ++ (part ++ back))) ≡ part
  slice_lem front part back n at e f =
      rw (drop_front front (part ++ back) at e) (take_front part back n f)
