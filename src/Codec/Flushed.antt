-- ===== src/Codec/Flushed.antt =====
-- `PosixRunWriter::flush` (libursa/Utils.cpp) where the system call takes every buffer.
use ursadb.Prelude.{◌≡◌, refl, sym, ap, ◌∙◌, Bool, true, List, [], ◌∷◌, ◌++◌, arith, ℕ, ok}
use mathlib.Core.List.{append-nil}
use ursadb.Codec.Posix.{PosixRunWriter, written, flush}

module _ (accepts : List ℕ → List ℕ → Bool)
    (accepts_all : (f b : List ℕ) → accepts f b ≡ true) where
  flush_buffer :
      (w : PosixRunWriter) (buffer : List ℕ)
      → w.buffer ≡ buffer
      → (w' : PosixRunWriter) × (flush accepts w ≡ ok w') × (w'.file ≡ written w)
  unfolding flush written
  flush_buffer w [] e = (w, ground (arith, e), sym (ap (λ b. w.file ++ b) e ∙ append-nil w.file))
  flush_buffer w (b ∷ bs) e = (
    record w { file = w.file ++ w.buffer; buffer = [] },
    ground (arith, e, accepts_all w.file w.buffer),
    refl,
  )

  -- The file has all that was written.
  pub flush_lem :
      (w : PosixRunWriter)
      → (w' : PosixRunWriter) × (flush accepts w ≡ ok w') × (w'.file ≡ written w)
  flush_lem w = flush_buffer w w.buffer refl
