-- ===== src/Prelude/Words.antt =====
-- Machine words: a value is a number below 2 ^ w, a signed value is its bit pattern.
use Prim.Native.Nat.{ℕ, ◌-◌, ◌%◌, ◌^◌, ◌<◌}

abbrev pub u32 : ℕ → ℕ
u32 n = n % 2 ^ 32

abbrev pub u64 : ℕ → ℕ
u64 n = n % 2 ^ 64

abbrev pub IsU32 : ℕ → Type 0
IsU32 n = n < 2 ^ 32

-- `-1` as an `int64_t` and as an `int32_t`.
abbrev pub minus_one64 : ℕ
minus_one64 = 2 ^ 64 - 1

abbrev pub minus_one32 : ℕ
minus_one32 = 2 ^ 32 - 1
