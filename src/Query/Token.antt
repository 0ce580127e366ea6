-- ===== src/Query/Token.antt =====
-- The constructors of `QToken` (libursa/QString.cpp).
use ursadb.Prelude.{
  ℕ, zero, suc, ◌+◌, ◌*◌, ◌/◌, ◌%◌, ◌<◌, ◌≡◌, true, ◌&&◌, List, [], ◌∷◌, ltb, leb, ◌==◌, elem,
  arith, Result, ok, guard, ◌>>◌, invalid_wildcard,
}
use ursadb.Query.Syntax.{QToken}

unfoldable pub single : ℕ → QToken
single val = val ∷ []

-- The values `start`, `start + step`, ... that a loop pushes in `rounds` rounds.
unfoldable pub push_values : ℕ → ℕ → ℕ → List ℕ
push_values zero start step = []
push_values (suc rounds) start step = start ∷ push_values rounds (start + step) step

-- `val | i` is `val + i`, since the low half of `val` is zero.
unfoldable pub low_wildcard : ℕ → Result QToken
unfolding push_values
low_wildcard val = do guard (val % 16 == 0) invalid_wildcard; ok (push_values 16 val 1)

-- `(i << 4) | val` is `i * 16 + val`, since the high half of `val` is zero.
unfoldable pub high_wildcard : ℕ → Result QToken
unfolding push_values
high_wildcard val = do guard (val / 16 % 16 == 0) invalid_wildcard; ok (push_values 16 val 16)

unfoldable pub wildcard : QToken
unfolding push_values
wildcard = push_values 256 0 1

elem-push_values_one :
    (b rounds start : ℕ)
    → elem b (push_values rounds start 1) ≡ (leb start b && ltb b (start + rounds))
unfolding push_values
elem-push_values_one b zero start = ground arith
elem-push_values_one b (suc rounds) start =
    ground (arith, elem-push_values_one b rounds (start + 1))

elem-push_values_high :
    (b rounds start : ℕ)
    → elem b (push_values rounds start 16)
      ≡ (leb start b && (ltb b (start + 16 * rounds) && (b % 16 == start % 16)))
unfolding push_values
elem-push_values_high b zero start = ground arith
elem-push_values_high b (suc rounds) start =
    ground (arith, elem-push_values_high b rounds (start + 16))

-- For bytes with a zero low half and with a zero high half, the two wildcards are the tokens of all
-- bytes with the same high half and with the same low half; the wildcard of both is that of all
-- bytes.
pub wildcard-elem :
    (high low b : ℕ)
    → high < 16
    → low < 16
    → b < 256
    → (s t : QToken) × (low_wildcard (high * 16) ≡ ok s)
      × (high_wildcard low ≡ ok t)
      × (elem b s ≡ (b / 16 == high))
      × (elem b t ≡ (b % 16 == low))
      × (elem b wildcard ≡ true)
unfolding low_wildcard high_wildcard wildcard
wildcard-elem high low b h l fits = (
  push_values 16 (high * 16) 1,
  push_values 16 low 16,
  ground arith,
  ground arith,
  ground (arith, elem-push_values_one b 16 (high * 16)),
  ground (arith, elem-push_values_high b 16 low),
  ground (arith, elem-push_values_one b 256 0),
)
