-- ===== src/Codec/Writer.antt =====
-- `RunWriter` and `compress_run` of libursa/Utils.cpp, which write a run to a stream.
use ursadb.Prelude.{
  ℕ, ◌+◌, ◌-◌, ◌^◌, Bool, true, List, [], ◌∷◌, ◌++◌, u64, ltb, leb, if◌then◌else◌, length, Result,
  ok, assertion_failed, guard, ◌>>=◌, ◌>>◌, minus_one64,
}
use ursadb.Codec.Bytes.{put_diff}

-- `next > prev` at `int64_t`, for a non-negative `next`. The numbers from 2 ^ 63 on are negative.
abbrev pub above : ℕ → ℕ → Bool
above next prev = if leb (2 ^ 63) prev then true else ltb prev next

-- `(next - prev) - 1` at `int64_t`.
abbrev pub gap : ℕ → ℕ → ℕ
gap next prev = u64 (next + (2 ^ 64 - prev) + (2 ^ 64 - 1))

-- `out` is what the stream has taken.
pub record RunWriter : Type 0 where
  pub out : List ℕ
  pub out_bytes : ℕ
  pub prev : ℕ

unfoldable pub new_writer : List ℕ → RunWriter
new_writer out = record { out = out; out_bytes = 0; prev = minus_one64 }

unfoldable pub write : RunWriter → ℕ → Result RunWriter
write w next = do
  guard (above next w.prev) assertion_failed
  let bytes = put_diff (gap next w.prev)
  ok (record { out = w.out ++ bytes; out_bytes = u64 (w.out_bytes + length bytes); prev = next })

unfoldable pub write_all : RunWriter → List ℕ → Result RunWriter
write_all w [] = ok w
write_all w (next ∷ run) = write w next >>= λ w'. write_all w' run

-- The bytes that the stream holds afterwards, and the number of bytes written.
unfoldable pub compress_run : List ℕ → List ℕ → Result (List ℕ × ℕ)
unfolding new_writer write_all
compress_run run out = do w ← write_all (new_writer out) run; ok (w.out, w.out_bytes)
