-- ===== src/Query/Gather.antt =====
-- The bytes that `convert_gram` (libursa/Utils.cpp) takes from a string, where the string occurs.
use ursadb.Prelude.{
  ℕ, zero, suc, ◌+◌, ◌*◌, ◌^◌, ◌≤◌, ◌<◌, ◌≡◌, refl, sym, ap, ◌∙◌, true, List, [], ◌∷◌, ◌++◌, arith,
  none, some, Option-cases, inl, inr, length, elem, All, u64,
}
use native.Mathlib.Nat.{pow-le-pow_right}
use ursadb.Codec.Encoding.{IsByte}
use ursadb.Query.Syntax.{QToken, QString}
use ursadb.Query.Occurs.{starts_with}
use ursadb.Ngram.Convert.{unique, gather}
use ursadb.Ngram.Pack.{pack}

-- The bytes, as one number and as the front of the file.
pub record Gathered (n source : ℕ) (mem : List ℕ) (result : ℕ) : Type 0 where
  pub window : List ℕ
  pub behind : List ℕ
  pub front : window ++ behind ≡ mem
  pub size : length window ≡ n
  pub fits : All IsByte window
  pub packed : pack source window ≡ result

unique-elem : (token : QToken) (v b : ℕ) → unique token ≡ some v → elem b token ≡ true → b ≡ v
unfolding unique
unique-elem [] v b h e = cc
unique-elem (w ∷ []) v b h e = ground arith
unique-elem (w ∷ x ∷ token) v b h e = cc

gather-some :
    (n source v : ℕ) (token : QToken) (string : QString)
    → unique token ≡ some v
    → gather (suc n) source (token ∷ string) ≡ gather n (u64 (source * 256 + v)) string
unfolding gather
gather-some n source v token string e = rw (e, gather) refl

gather-none :
    (n source : ℕ) (token : QToken) (string : QString)
    → unique token ≡ none
    → gather (suc n) source (token ∷ string) ≡ none
unfolding gather
gather-none n source token string e = rw (e, gather) refl

pow_suc : (k : ℕ) → 256 ^ suc k ≡ 256 ^ k * 256
pow_suc k = omega arith

-- Eight bytes fit into 64 bits.
no_wrap :
    (k source b : ℕ)
    → k < 8
    → source < 256 ^ k
    → b < 256
    → (u64 (source * 256 + b) ≡ source * 256 + b) × (source * 256 + b < 256 ^ suc k)
no_wrap k source b h s l =
    let top : 256 ^ suc k ≤ 256 ^ 8 =
      pow-le-pow_right {n = 256} (omega arith) {i = suc k} {j = 8} (omega arith) in
    (omega (arith, pow_suc k), omega (arith, pow_suc k))

pub gather-Gathered :
    (n k source : ℕ) (string : QString) (mem : List ℕ) (result : ℕ)
    → source < 256 ^ k
    → k + n ≤ 8
    → All IsByte mem
    → starts_with string mem ≡ true
    → gather n source string ≡ some result
    → Gathered n source mem result
unfolding gather
gather-Gathered zero k source string mem result small room bytes here e = record {
  window = [];
  behind = mem;
  front = refl;
  size = refl;
  fits = tt;
  packed = ground arith;
}
gather-Gathered (suc n) k source [] mem result small room bytes here e = cc
gather-Gathered (suc n) k source (token ∷ string) [] result small room bytes here e = cc
gather-Gathered (suc n) k source (token ∷ string) (b ∷ mem) result small room bytes here e =
    elim (Option-cases (unique token)) [
      | inl several ↦ let stops = gather-none n source token string several in cc
      | inr (v, one) ↦
          let same : b ≡ v = unique-elem token v b one (ground arith) in
          let (plain, next) = no_wrap k source b (omega arith) small bytes.0 in
          let rest : gather n (source * 256 + b) string ≡ some result =
            ap (λ t. gather n t string) (sym plain ∙ ap (λ t. u64 (source * 256 + t)) same)
            ∙ sym (gather-some n source v token string one)
            ∙ e in
          let later =
            gather-Gathered n (suc k) (source * 256 + b) string mem result next (omega arith)
              bytes.1 (ground arith) rest in
          record {
            window = b ∷ later.window;
            behind = later.behind;
            front = ap (λ t. b ∷ t) later.front;
            size = omega (arith, later.size);
            fits = (bytes.0, later.fits);
            packed = later.packed;
          }
    ]
