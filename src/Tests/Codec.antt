-- ===== src/Tests/Codec.antt =====
-- libursa/Utils.cpp at concrete runs.
use ursadb.Prelude.{
  ℕ, ◌+◌, ◌-◌, ◌^◌, ◌≡◌, refl, Bool, true, List, [], ◌∷◌, ◌++◌, arith, map, u64, length, IsRun,
  IsU32, All, ok,
}
use ursadb.Codec.Reader.{read_compressed_run, iterate, begin_at}
use ursadb.Codec.Writer.{compress_run}
use ursadb.Codec.Posix.{PosixRunWriter, write_raw}
use ursadb.Codec.Encoding.{encoding, last_of}
use ursadb.Codec.Wrote.{Wrote}
use ursadb.Codec.RoundTrip.{read-compress_run}
use ursadb.Codec.Iterator.{iterate-begin_at}
use ursadb.Codec.RawCopy.{write_raw-Wrote}

abbrev three_files : List ℕ
three_files = 2 ∷ 5 ∷ 300 ∷ []

three_files-IsRun : IsRun three_files
three_files-IsRun = (omega arith, (omega arith, (omega arith, tt)))

three_files-IsU32 : All IsU32 three_files
three_files-IsU32 = (omega arith, (omega arith, (omega arith, tt)))

read-compress_run_example :
    (bytes : List ℕ) × (compress_run three_files (7 ∷ [])
      ≡ ok ((7 ∷ []) ++ bytes, u64 (length bytes)))
    × (read_compressed_run bytes ≡ three_files)
read-compress_run_example =
    read-compress_run three_files (7 ∷ []) three_files-IsRun three_files-IsU32

iterate-begin_at_example :
    iterate (length (encoding 0 three_files)) (begin_at (encoding 0 three_files)) ≡ ok three_files
iterate-begin_at_example = iterate-begin_at three_files three_files-IsRun three_files-IsU32

abbrev no_errors : List ℕ → List ℕ → Bool
no_errors file buffer = true

abbrev fresh : PosixRunWriter
fresh = record { file = []; out_bytes = 0; prev = 2 ^ 64 - 1; buffer = [] }

write_raw-Wrote_example :
    (w' : PosixRunWriter) × (write_raw no_errors fresh 10 (encoding 0 three_files) ≡ ok w')
    × Wrote fresh
        (encoding 0 (map (λ x. 10 + x) three_files))
        (last_of (2 ^ 64 - 1) (map (λ x. 10 + x) three_files))
        w'
write_raw-Wrote_example =
    write_raw-Wrote no_errors (λ f b. refl) three_files 10 0 fresh (omega arith, omega arith)
      (omega arith) (omega arith) three_files-IsRun (omega arith, (omega arith, (omega arith, tt)))
