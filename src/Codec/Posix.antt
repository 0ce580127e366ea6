-- ===== src/Codec/Posix.antt =====
-- `PosixRunWriter` of libursa/Utils.cpp: the same coding over a buffer and a file descriptor, and
-- the raw copy of a coded run that a merge uses.
use ursadb.Prelude.{
  ℕ, ◌+◌, ◌*◌, Bool, true, false, List, [], ◌∷◌, ◌++◌, u32, u64, ltb, if◌then◌else◌, length, Result,
  ok, err, assertion_failed, flush_failed, guard, ◌>>=◌, ◌>>◌, minus_one64,
}
use ursadb.Codec.Bytes.{put_diff, is_last, add_group}
use ursadb.Codec.Reader.{decompress_single}
use ursadb.Codec.Writer.{above, gap}

-- 128 MiB.
abbrev pub run_buffer_size : ℕ
run_buffer_size = 128 * 1024 * 1024

-- `file` is what `fd_` has taken.
pub record PosixRunWriter : Type 0 where
  pub file : List ℕ
  pub out_bytes : ℕ
  pub prev : ℕ
  pub buffer : List ℕ

unfoldable pub new_posix : List ℕ → PosixRunWriter
new_posix file = record { file = file; out_bytes = 0; prev = minus_one64; buffer = [] }

unfoldable pub reset : PosixRunWriter → PosixRunWriter
reset w = record w { out_bytes = 0; prev = minus_one64 }

-- What has been handed to the writer so far, flushed or not.
unfoldable pub written : PosixRunWriter → List ℕ
written w = w.file ++ w.buffer

-- `accepts file buffer`: the system call `write` takes the whole buffer behind that file.
module _ (accepts : List ℕ → List ℕ → Bool) where
  unfoldable pub flush : PosixRunWriter → Result PosixRunWriter
  flush w = elim w.buffer [
    | [] ↦ ok w
    | _ ∷ _ ↦
        if accepts w.file w.buffer
        then ok (record w { file = w.file ++ w.buffer; buffer = [] })
        else err flush_failed
  ]

  -- `if (buffer_.size() > RUN_BUFFER_SIZE) flush();`
  unfoldable pub flush_full : PosixRunWriter → Result PosixRunWriter
  unfolding flush
  flush_full w = if ltb run_buffer_size (length w.buffer) then flush w else ok w

  unfoldable pub write : PosixRunWriter → ℕ → Result PosixRunWriter
  unfolding flush_full
  write w next = do
    guard (above next w.prev) assertion_failed
    let bytes = put_diff (gap next w.prev)
    flush_full (record w {
      buffer = w.buffer ++ bytes;
      out_bytes = u64 (w.out_bytes + length bytes);
      prev = next;
    })

  -- The loop of `write_raw`, from its state `acc` and `shift` on.
  unfoldable pub copy_loop : PosixRunWriter → List ℕ → ℕ → ℕ → Result PosixRunWriter
  unfolding flush_full
  copy_loop w [] acc shift = ok w
  copy_loop w (b ∷ rest) acc shift = do
    w' ← flush_full (record w { out_bytes = u64 (w.out_bytes + 1); buffer = w.buffer ++ (b ∷ []) })
    let acc' = add_group acc b shift
    elim (is_last b) [
      | true ↦ copy_loop (record w' { prev = u64 (w'.prev + (acc' + 1)) }) rest 0 0
      | false ↦ copy_loop w' rest acc' (u32 (shift + 7))
    ]

  unfoldable pub write_raw : PosixRunWriter → ℕ → List ℕ → Result PosixRunWriter
  write_raw w base [] = ok w
  write_raw w base (b ∷ bytes) = do
    (next, rest) ← decompress_single (b ∷ bytes)
    w' ← write w (u32 (base + next))
    copy_loop w' rest 0 0
