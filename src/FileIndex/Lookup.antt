-- ===== src/FileIndex/Lookup.antt =====
-- The names of a dataset's files, as they were written, are read back: all in their order, and each
-- by its id.
use ursadb.Prelude.{
  ℕ, suc, ◌+◌, ◌-◌, ◌*◌, ◌^◌, ◌<◌, ◌≡◌, refl, sym, ap, ◌∙◌, true, false, ◌||◌, List, [], ◌∷◌, ◌++◌,
  Option, none, some, length, length-append, All, take, drop, take_front, drop_front, slice_lem,
  leb, ◌==◌, u64, ok, arith,
}
use mathlib.Core.List.{append_assoc, append-nil}
use ursadb.Index.Bytes.{to_bytes, of_bytes, read_at, length-to_bytes, of_bytes-to_bytes}
use ursadb.Index.Layout.{words64, length-words64}
use ursadb.SortedRun.Runs.{is_nil}
use ursadb.FileIndex.Names.{
  OnDiskFileIndex, newline, write_names, call_back, getline_loop, each_filename, for_each_filename,
  name_offsets, generate_namecache_file, open_file_index, pread, name_between, get_file_name,
}

-- A name that a dataset takes: it is not empty, and has no newline.
pub record IsName (name : List ℕ) : Type 0 where
  pub nonempty : is_nil name ≡ false
  pub one_line : All (λ c. (c == newline) ≡ false) name

getline_loop-name :
    (read name rest : List ℕ)
    → All (λ c. (c == newline) ≡ false) name
    → getline_loop read (name ++ newline ∷ rest) ≡ call_back (read ++ name) (getline_loop [] rest)
unfolding getline_loop
getline_loop-name read [] rest h = rw (append-nil read) refl
getline_loop-name read (c ∷ name) rest h =
    rw (h.0, getline_loop)
      (getline_loop-name (read ++ c ∷ []) name rest h.1
        ∙ ap (λ line. call_back line (getline_loop [] rest)) (append_assoc read (c ∷ []) name))

-- What was written is read back.
pub each_filename-write_names :
    (names : List (List ℕ)) → All IsName names → each_filename (write_names names) ≡ names
unfolding each_filename write_names
each_filename-write_names [] h = unfold getline_loop in refl
each_filename-write_names (name ∷ names) h =
    getline_loop-name [] name (write_names names) h.0.one_line
    ∙ rw h.0.nonempty (ap (λ more. name ∷ more) (each_filename-write_names names h.1))

write_names-append :
    (before after : List (List ℕ)) (name : List ℕ)
    → write_names (before ++ name ∷ after)
      ≡ write_names before ++ (name ++ newline ∷ write_names after)
unfolding write_names
write_names-append [] after name = refl
write_names-append (first ∷ before) after name =
    ap (λ more. first ++ newline ∷ more) (write_names-append before after name)
    ∙ sym (append_assoc first (newline ∷ write_names before) (name ++ newline ∷ write_names after))

length-name_offsets :
    (offset : ℕ) (names : List (List ℕ)) → length (name_offsets offset names) ≡ suc (length names)
unfolding name_offsets
length-name_offsets offset [] = refl
length-name_offsets offset (name ∷ names) =
    omega (arith, length-name_offsets (u64 (offset + (length name + 1))) names)

-- The offsets of a name and of the one behind it stand at its position.
record StandsAt (offsets : List ℕ) (position start next : ℕ) : Type 0 where
  front : List ℕ
  back : List ℕ
  parts : offsets ≡ front ++ (start ∷ next ∷ back)
  position_is : length front ≡ position

first-StandsAt :
    (offset : ℕ) (name : List ℕ) (names : List (List ℕ)) (next : ℕ)
    → next ≡ u64 (offset + (length name + 1))
    → StandsAt (name_offsets offset (name ∷ names)) 0 offset next
unfolding name_offsets
first-StandsAt offset name [] next e = record {
  front = [];
  back = [];
  parts = rw e refl;
  position_is = refl;
}
first-StandsAt offset name (second ∷ names) next e = record {
  front = [];
  back = name_offsets (u64 (u64 (offset + (length name + 1)) + (length second + 1))) names;
  parts = rw e refl;
  position_is = refl;
}

name_offsets-StandsAt :
    (offset : ℕ) (before after : List (List ℕ)) (name : List ℕ)
    → offset + length (write_names (before ++ name ∷ after)) < 2 ^ 64
    → StandsAt
        (name_offsets offset (before ++ name ∷ after))
        (length before)
        (offset + length (write_names before))
        (offset + length (write_names before) + length name + 1)
unfolding write_names
name_offsets-StandsAt offset [] after name fits =
    let room = length-append name (newline ∷ write_names after) in
    let z : offset + 0 ≡ offset = omega arith in
    rw z (first-StandsAt offset name after (offset + length name + 1) (omega (arith, room, fits)))
name_offsets-StandsAt offset (first ∷ before) after name fits =
    let room = length-append first (newline ∷ write_names (before ++ name ∷ after)) in
    let here = length-append first (newline ∷ write_names before) in
    let next = offset + (length first + 1) in
    let small : u64 next ≡ next = omega (arith, room, fits) in
    let e : offset + length (first ++ newline ∷ write_names before)
        ≡ next + length (write_names before) =
      omega (arith, here) in
    let found = name_offsets-StandsAt next before after name (omega (arith, room, fits)) in
    rw e (record {
      front = offset ∷ found.front;
      back = found.back;
      parts = parts_of next small found.parts;
      position_is = ap suc found.position_is;
    })
  where
    parts_of :
        (next : ℕ) {list : List ℕ}
        → u64 (offset + (length first + 1)) ≡ next
        → name_offsets next (before ++ name ∷ after) ≡ list
        → name_offsets offset (first ∷ (before ++ name ∷ after)) ≡ offset ∷ list
    parts_of next small h =
        unfold name_offsets in
        ap (λ m. offset ∷ name_offsets m (before ++ name ∷ after)) small
        ∙ ap (λ more. offset ∷ more) h

words64-append : (ms ns : List ℕ) → words64 (ms ++ ns) ≡ words64 ms ++ words64 ns
unfolding words64
words64-append [] ns = refl
words64-append (m ∷ ms) ns =
    ap (λ more. to_bytes 8 m ++ more) (words64-append ms ns)
    ∙ sym (append_assoc (to_bytes 8 m) (words64 ms) (words64 ns))

-- A read inside of a file gives the part.
pread-parts :
    (front part back : List ℕ) (to_read offset : ℕ)
    → offset ≡ length front
    → to_read ≡ length part
    → pread (front ++ (part ++ back)) to_read offset ≡ ok part
unfolding pread read_at
pread-parts front part back to_read offset e f =
    let g = length-append front (part ++ back) in
    let h = length-append part back in
    let inside : leb (offset + to_read) (length (front ++ (part ++ back))) ≡ true =
      ground (arith, g, h, e, f) in
    let some_left : ((to_read == 0) || leb (offset + to_read) (length (front ++ (part ++ back))))
        ≡ true =
      ground (arith, inside) in
    rw some_left (ap ok (slice_lem front part back to_read offset e f))

-- The two offsets of a position.
pread-StandsAt :
    (offsets : List ℕ) (position start next : ℕ)
    → StandsAt offsets position start next
    → pread (words64 offsets) 16 (position * 8) ≡ ok (to_bytes 8 start ++ to_bytes 8 next)
pread-StandsAt offsets position start next found =
    let parts : words64 offsets
        ≡ words64 found.front ++ ((to_bytes 8 start ++ to_bytes 8 next) ++ words64 found.back) =
      ap words64 found.parts
      ∙ words64-append found.front (start ∷ next ∷ found.back)
      ∙ ap (λ more. words64 found.front ++ more) (pair found.back) in
    rw parts (
      pread-parts (words64 found.front) (to_bytes 8 start ++ to_bytes 8 next) (words64 found.back)
        16 (position * 8) (omega (arith, length-words64 found.front, found.position_is))
        (omega (
          arith,
          length-append (to_bytes 8 start) (to_bytes 8 next),
          length-to_bytes 8 start,
          length-to_bytes 8 next,
        )))
  where
    pair :
        (back : List ℕ)
        → words64 (start ∷ next ∷ back) ≡ (to_bytes 8 start ++ to_bytes 8 next) ++ words64 back
    pair back =
        unfold words64 in sym (append_assoc (to_bytes 8 start) (to_bytes 8 next) (words64 back))

name_between-parts :
    (index : OnDiskFileIndex) (front name back : List ℕ)
    → index.files_file ≡ front ++ (name ++ newline ∷ back)
    → length index.files_file < 2 ^ 64
    → name_between index (to_bytes 8 (length front) ++ to_bytes 8 (length front + length name + 1))
      ≡ ok name
unfolding name_between
name_between-parts index front name back file fits =
    let start = length front in
    let next = length front + length name + 1 in
    let size : length index.files_file ≡ length front + (length name + suc (length back)) =
      ap length file
      ∙ omega (
        arith,
        length-append front (name ++ newline ∷ back),
        length-append name (newline ∷ back),
      ) in
    let big : 256 ^ 8 ≡ 2 ^ 64 = refl in
    let first : of_bytes (take 8 (to_bytes 8 start ++ to_bytes 8 next)) ≡ start =
      ap of_bytes
        (take_front (to_bytes 8 start) (to_bytes 8 next) 8 (omega (arith, length-to_bytes 8 start)))
      ∙ of_bytes-to_bytes 8 start (omega (arith, size, big)) in
    let second : of_bytes (drop 8 (to_bytes 8 start ++ to_bytes 8 next)) ≡ next =
      ap of_bytes
        (drop_front (to_bytes 8 start) (to_bytes 8 next) 8 (omega (arith, length-to_bytes 8 start)))
      ∙ of_bytes-to_bytes 8 next (omega (arith, size, big)) in
    let end : u64 (u64 (next + (2 ^ 64 - 1)) + (2 ^ 64 - start)) ≡ length name =
      omega (arith, size) in
    rw (first, second, end, file)
      (pread-parts front name (newline ∷ back) (length name) start refl refl)

-- The names of the files, where the cache was generated now or by an earlier call: all in their
-- order, their number, and each by its id.
pub record Holds (index : OnDiskFileIndex) (names : List (List ℕ)) : Type 0 where
  pub all_names : for_each_filename index ≡ names
  pub counted : index.file_count ≡ length names
  pub by_id :
      (before after : List (List ℕ)) (name : List ℕ)
      → names ≡ before ++ name ∷ after
      → get_file_name index (length before) ≡ ok name

get_file_name-generated :
    (index : OnDiskFileIndex) (names before after : List (List ℕ)) (name : List ℕ)
    → All IsName names
    → length (write_names names) < 2 ^ 64
    → index.files_file ≡ write_names names
    → index.cache_file ≡ words64 (name_offsets 0 names)
    → names ≡ before ++ name ∷ after
    → get_file_name index (length before) ≡ ok name
unfolding get_file_name
get_file_name-generated index names before after name valid fits file cache parts =
    let fits_parts = rw parts at fits in
    let found = name_offsets-StandsAt 0 before after name (omega (arith, fits_parts)) in
    let z : 0 + length (write_names before) ≡ length (write_names before) = omega arith in
    let pointers = rw z at (pread-StandsAt _ _ _ _ found) in
    let split : index.files_file ≡ write_names before ++ (name ++ newline ∷ write_names after) =
      file ∙ ap write_names parts ∙ write_names-append before after name in
    rw (cache, parts, pointers)
      (name_between-parts index (write_names before) name (write_names after) split
        (omega (arith, ap length file, fits)))

-- Names that are not empty and have no newline, written to a file of fewer than 2 ^ 64 bytes, are read
-- back with a cache that is generated now or was generated of the same file. (There are fewer than
-- 2 ^ 60 names.)
pub open_file_index-Holds :
    (names : List (List ℕ)) (cache : Option (List ℕ))
    → All IsName names
    → length (write_names names) < 2 ^ 64
    → ((c : List ℕ) → cache ≡ some c → c ≡ generate_namecache_file (write_names names))
    → length names < 2 ^ 60
    → Holds (open_file_index (write_names names) cache) names
unfolding open_file_index
open_file_index-Holds names none valid fits made few =
    let back = each_filename-write_names names valid in
    record {
      all_names = unfold for_each_filename in back;
      counted = ap length back;
      by_id = λ before after name parts.
          get_file_name-generated (open_file_index (write_names names) none) names before after name
            valid fits refl (unfold generate_namecache_file in rw back refl) parts;
    }
open_file_index-Holds names (some c) valid fits made few =
    let back = each_filename-write_names names valid in
    let cache : c ≡ words64 (name_offsets 0 names) =
      made c refl ∙ unfold generate_namecache_file in rw back refl in
    let size : length c ≡ suc (length names) * 8 =
      ap length cache
      ∙ length-words64 (name_offsets 0 names)
      ∙ ap (λ n. n * 8) (length-name_offsets 0 names) in
    record {
      all_names = unfold for_each_filename in back;
      counted = omega (arith, size);
      by_id = λ before after name parts.
          get_file_name-generated (open_file_index (write_names names) (some c)) names before after
            name valid fits refl cache parts;
    }
