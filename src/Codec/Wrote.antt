-- ===== src/Codec/Wrote.antt =====
-- What a step adds to a `PosixRunWriter` of libursa/Utils.cpp, and the steps of its buffer.
use ursadb.Prelude.{
  ℕ, ◌+◌, ◌^◌, ◌<◌, ◌≡◌, refl, sym, ◌∙◌, List, [], ◌∷◌, ◌++◌, arith, ltb, if◌then◌else◌, u64,
  length, length-append,
}
use mathlib.Core.List.{append_assoc, append-nil}
use ursadb.Codec.Bytes.{put_diff}
use ursadb.Codec.Posix.{PosixRunWriter, run_buffer_size, written}
use ursadb.Codec.Encoding.{push_all}

-- What a step of the writer adds to it.
pub record Wrote (w : PosixRunWriter) (bytes : List ℕ) (prev : ℕ) (w' : PosixRunWriter)
    : Type 0 where
  pub wrote : written w' ≡ written w ++ bytes
  pub counted : w'.out_bytes ≡ u64 (w.out_bytes + length bytes)
  pub stands : w'.prev ≡ prev

unfoldable pub flushed : PosixRunWriter → PosixRunWriter
flushed w =
    if ltb run_buffer_size (length w.buffer)
    then record w { file = w.file ++ w.buffer; buffer = [] }
    else w

pub written-flushed : (w : PosixRunWriter) → written (flushed w) ≡ written w
unfolding flushed written
written-flushed w = ground (arith, append-nil (w.file ++ w.buffer))

pub flushed_keeps :
    (w : PosixRunWriter) → ((flushed w).out_bytes ≡ w.out_bytes) × ((flushed w).prev ≡ w.prev)
unfolding flushed
flushed_keeps w = ground arith

-- One byte pushed to the buffer, and the number taken in at its last byte.
unfoldable pub push : PosixRunWriter → ℕ → PosixRunWriter
push w b = flushed (record w { out_bytes = u64 (w.out_bytes + 1); buffer = w.buffer ++ (b ∷ []) })

unfoldable pub moved_on : PosixRunWriter → ℕ → PosixRunWriter
moved_on w acc = record w { prev = u64 (w.prev + (acc + 1)) }

push_lem : (b : ℕ) (w : PosixRunWriter) → Wrote w (b ∷ []) w.prev (push w b)
push_lem b w =
    let w' : PosixRunWriter = record w {
      out_bytes = u64 (w.out_bytes + 1);
      buffer = w.buffer ++ (b ∷ []);
    } in
    record {
      wrote =
          unfold push in
          written-flushed w' ∙ unfold written in sym (append_assoc w.file w.buffer (b ∷ []));
      counted = unfold push in (flushed_keeps w').0;
      stands = unfold push in (flushed_keeps w').1;
    }

pub push_all-Wrote :
    (bytes : List ℕ) (w : PosixRunWriter)
    → w.out_bytes < 2 ^ 64
    → Wrote w bytes w.prev (push_all push w bytes)
push_all-Wrote [] w h = record {
  wrote = sym (append-nil (written w));
  counted = omega arith;
  stands = refl;
}
push_all-Wrote (b ∷ bytes) w h =
    let first = push_lem b w in
    let later = push_all-Wrote bytes (push w b) (omega arith) in
    record {
      wrote = later.wrote ∙ rw (first.wrote, append_assoc);
      counted = omega arith;
      stands = later.stands ∙ first.stands;
    }

pub Wrote-trans :
    (w w' w'' : PosixRunWriter) (a b : List ℕ) (p q : ℕ)
    → Wrote w a p w'
    → Wrote w' b q w''
    → Wrote w (a ++ b) q w''
Wrote-trans w w' w'' a b p q first later = record {
  wrote = later.wrote ∙ rw (first.wrote, append_assoc);
  counted = omega (arith, length-append a b);
  stands = later.stands;
}

-- A whole number pushed and taken in.
pub moved_on-Wrote :
    (w : PosixRunWriter) (d next : ℕ)
    → w.out_bytes < 2 ^ 64
    → u64 (w.prev + (d + 1)) ≡ next
    → Wrote w (put_diff d) next (moved_on (push_all push w (put_diff d)) d)
moved_on-Wrote w d next h e =
    let pushed = push_all-Wrote (put_diff d) w h in
    record {
      wrote = unfold moved_on written in unfold written in pushed.wrote;
      counted = unfold moved_on in pushed.counted;
      stands = unfold moved_on in omega (arith, pushed.stands);
    }
