-- ===== src/Index/Bytes.antt =====
-- The bytes of an index file (libursa/OnDiskIndex.cpp): numbers as the machine lays them out, least
-- byte first, the header, and what the class reads of a file that holds given bytes.
use ursadb.Prelude.{
  ℕ, zero, suc, ◌+◌, ◌-◌, ◌*◌, ◌/◌, ◌%◌, ◌^◌, ◌<◌, ◌≡◌, refl, List, [], ◌∷◌, ◌++◌, arith, length,
  take, drop,
}
use ursadb.Index.File.{OnDiskIndexHeader, IndexFile, run_array_size}

-- The `count` bytes of a number.
unfoldable pub to_bytes : ℕ → ℕ → List ℕ
to_bytes zero n = []
to_bytes (suc count) n = n % 256 ∷ to_bytes count (n / 256)

unfoldable pub of_bytes : List ℕ → ℕ
of_bytes [] = 0
of_bytes (b ∷ bytes) = b + 256 * of_bytes bytes

pub length-to_bytes : (count n : ℕ) → length (to_bytes count n) ≡ count
unfolding to_bytes
length-to_bytes zero n = refl
length-to_bytes (suc count) n = omega (arith, length-to_bytes count (n / 256))

pow256-suc : (count : ℕ) → 256 ^ suc count ≡ 256 * 256 ^ count
pow256-suc count = omega arith

pub of_bytes-to_bytes : (count n : ℕ) → n < 256 ^ count → of_bytes (to_bytes count n) ≡ n
unfolding to_bytes of_bytes
of_bytes-to_bytes zero n h = omega arith
of_bytes-to_bytes (suc count) n h =
    let small : n / 256 < 256 ^ count = omega (arith, pow256-suc count) in
    omega (arith, of_bytes-to_bytes count (n / 256) small)

-- The four fields in their order.
unfoldable pub header_bytes : OnDiskIndexHeader → List ℕ
unfolding to_bytes
header_bytes header =
    to_bytes 4 header.magic
    ++ (to_bytes 4 header.version ++ (to_bytes 4 header.raw_type ++ to_bytes 4 header.reserved))

-- `pread(buffer, count, offset)` on a file that holds these bytes.
unfoldable pub read_at : List ℕ → ℕ → ℕ → List ℕ
read_at bytes count offset = take count (drop offset bytes)

-- What `OnDiskIndex` reads of a file.
unfoldable pub as_index_file : List ℕ → IndexFile
unfolding of_bytes read_at
as_index_file bytes = record {
  index_size = length bytes;
  header = record {
    magic = of_bytes (read_at bytes 4 0);
    version = of_bytes (read_at bytes 4 4);
    raw_type = of_bytes (read_at bytes 4 8);
    reserved = of_bytes (read_at bytes 4 12);
  };
  run_array = λ i. of_bytes (read_at bytes 8 (length bytes - run_array_size + i * 8));
  pread = λ count offset. read_at bytes count offset;
}
