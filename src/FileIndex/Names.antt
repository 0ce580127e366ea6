-- ===== src/FileIndex/Names.antt =====
-- `OnDiskFileIndex` (libursa/OnDiskFileIndex.cpp) as functions of the bytes of its two files.
use ursadb.Prelude.{
  ℕ, ◌+◌, ◌-◌, ◌*◌, ◌/◌, ◌^◌, true, false, ◌||◌, List, [], ◌∷◌, ◌++◌, Option, none, some, length,
  take, drop, leb, ◌==◌, if◌then◌else◌, u64, Result, ok, err, ◌>>=◌, out_of_bounds,
}
use ursadb.Index.Bytes.{of_bytes, read_at}
use ursadb.Index.Layout.{words64}
use ursadb.SortedRun.Runs.{is_nil}

pub record OnDiskFileIndex : Type 0 where
  pub file_count : ℕ
  pub files_file : List ℕ
  pub cache_file : List ℕ

abbrev pub newline : ℕ
newline = 10

-- `for (filename : fids) of << filename << "\n"`
unfoldable pub write_names : List (List ℕ) → List ℕ
write_names [] = []
write_names (filename ∷ fids) = filename ++ newline ∷ write_names fids

-- `if (!filename.empty()) cb(filename)`
abbrev pub call_back : List ℕ → List (List ℕ) → List (List ℕ)
call_back filename called = if is_nil filename then called else filename ∷ called

-- `while (!inf.eof()) { std::getline(inf, filename); ... }`; `filename` is what the line has so far.
unfoldable pub getline_loop : List ℕ → List ℕ → List (List ℕ)
getline_loop filename [] = call_back filename []
getline_loop filename (c ∷ inf) = elim (c == newline) [
  | true ↦ call_back filename (getline_loop [] inf)
  | false ↦ getline_loop (filename ++ c ∷ []) inf
]

-- The names that the callback is called with.
unfoldable pub each_filename : List ℕ → List (List ℕ)
unfolding getline_loop
each_filename files_file = getline_loop [] files_file

unfoldable pub for_each_filename : OnDiskFileIndex → List (List ℕ)
unfolding each_filename
for_each_filename index = each_filename index.files_file

-- The offsets that `generate_namecache_file` writes.
unfoldable pub name_offsets : ℕ → List (List ℕ) → List ℕ
name_offsets offset [] = offset ∷ []
name_offsets offset (fname ∷ names) =
    offset ∷ name_offsets (u64 (offset + (length fname + 1))) names

unfoldable pub generate_namecache_file : List ℕ → List ℕ
unfolding each_filename name_offsets words64
generate_namecache_file files_file = words64 (name_offsets 0 (each_filename files_file))

-- The constructor, for a cache file that exists or not.
unfoldable pub open_file_index : List ℕ → Option (List ℕ) → OnDiskFileIndex
unfolding generate_namecache_file
open_file_index files_file (some cache) = record {
  file_count = u64 (length cache / 8 + (2 ^ 64 - 1));
  files_file = files_file;
  cache_file = cache;
}
open_file_index files_file none = record {
  file_count = length (each_filename files_file);
  files_file = files_file;
  cache_file = generate_namecache_file files_file;
}

-- `RawFile::pread`, whose loop has no end where the file ends before the buffer is full.
unfoldable pub pread : List ℕ → ℕ → ℕ → Result (List ℕ)
pread bytes to_read offset =
    if (to_read == 0) || leb (offset + to_read) (length bytes)
    then ok (read_at bytes to_read offset)
    else err out_of_bounds

unfoldable pub name_between : OnDiskFileIndex → List ℕ → Result (List ℕ)
unfolding pread of_bytes
name_between index ptrs =
    let filename_start = of_bytes (take 8 ptrs) in
    let filename_end = u64 (of_bytes (drop 8 ptrs) + (2 ^ 64 - 1)) in
    let filename_length = u64 (filename_end + (2 ^ 64 - filename_start)) in
    pread index.files_file filename_length filename_start

unfoldable pub get_file_name : OnDiskFileIndex → ℕ → Result (List ℕ)
unfolding pread name_between
get_file_name index fid = pread index.cache_file 16 (fid * 8) >>= λ ptrs. name_between index ptrs
