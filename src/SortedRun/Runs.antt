-- ===== src/SortedRun/Runs.antt =====
-- The class `SortedRun` of libursa/SortedRun.cpp. A method that changes the object returns it.
use ursadb.Prelude.{
  ℕ, Bool, true, false, not, ◌&&◌, List, [], ◌∷◌, if◌then◌else◌, length, Result, ok, err, ◌>>=◌,
  ◌>>◌, invalid_compression_state,
}
use ursadb.Codec.Reader.{read_compressed_run, iterate, begin_at}
use ursadb.SortedRun.Sets.{set_union, set_intersection}

-- At most one of the two is nonempty.
pub record SortedRun : Type 0 where
  pub sequence : List ℕ  -- uncompressed
  pub run : List ℕ  -- compressed

abbrev pub is_nil {ℓ} : {A : Type ℓ} → List A → Bool
is_nil [] = true
is_nil (x ∷ xs) = false

abbrev pub no_files : SortedRun
no_files = record { sequence = []; run = [] }

abbrev pub of_sequence : List ℕ → SortedRun
of_sequence ids = record { sequence = ids; run = [] }

abbrev pub of_run : List ℕ → SortedRun
of_run bytes = record { sequence = []; run = bytes }

abbrev pub is_compressed : SortedRun → Bool
is_compressed r = not (is_nil r.run)

unfoldable pub empty : SortedRun → Bool
empty r = is_nil r.sequence && is_nil r.run

abbrev same : Bool → Bool → Bool
same true b = b
same false b = not b

unfoldable pub validate_compression : SortedRun → Bool → Result (Unit {0})
unfolding empty
validate_compression r expected =
    if not (empty r) && not (same (is_compressed r) expected)
    then err invalid_compression_state
    else ok tt

-- What lies between `begin()` and `end()`.
unfoldable pub range : SortedRun → Result (List ℕ)
unfolding validate_compression
range r = do validate_compression r false; ok r.sequence

-- What an algorithm reads between `comp_begin()` and `comp_end()`.
unfoldable pub comp_range : SortedRun → Result (List ℕ)
unfolding validate_compression
comp_range r = do validate_compression r true; iterate (length r.run) (begin_at r.run)

unfoldable pub decompress : SortedRun → SortedRun
decompress r = if is_nil r.run then r else of_sequence (read_compressed_run r.run)

unfoldable pub decompressed : SortedRun → List ℕ
unfolding decompress
decompressed r = (decompress r).sequence

-- `is_compressed() ? comp_begin()..comp_end() : begin()..end()`, as `do_or` and `do_and` branch.
unfoldable pub any_range : SortedRun → Result (List ℕ)
any_range r = if is_compressed r then comp_range r else range r

unfoldable pub do_or : SortedRun → SortedRun → Result SortedRun
do_or r other = do
  let self = decompress r
  theirs ← any_range other
  ours ← range self
  ok (record self { sequence = set_union theirs ours })

-- `set_intersection` writes over the front of `sequence_`, and the rest is erased.
unfoldable pub do_and : SortedRun → SortedRun → Result SortedRun
do_and r other = do
  let self = decompress r
  theirs ← any_range other
  ours ← range self
  ok (record self { sequence = set_intersection theirs ours })
