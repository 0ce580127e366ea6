-- ===== src/FileIndex/Pop.antt =====
-- `OnDiskIterator::pop` (libursa/OnDiskIterator.cpp): the next names of a result file. `count` is an
-- `int`; a negative one takes nothing, as zero does.
use ursadb.Prelude.{
  ℕ, zero, suc, ◌+◌, ◌-◌, ◌≡◌, refl, sym, ap, ◌∙◌, true, false, List, [], ◌∷◌, ◌++◌, arith, length,
  length-append, All, drop, drop_front, ◌==◌, u64, minus_one64, Option, none, some,
}
use mathlib.Core.List.{append_assoc, append-nil}
use ursadb.Database.Iterators.{OnDiskIterator}
use ursadb.FileIndex.Names.{newline, write_names}

-- `std::getline`, and the rest of the file; nothing where the end comes before a newline.
unfoldable pub getline : List ℕ → List ℕ → Option (List ℕ × List ℕ)
getline next [] = none
getline next (c ∷ reader) = elim (c == newline) [
  | true ↦ some (next, reader)
  | false ↦ getline (next ++ c ∷ []) reader
]

-- The loop: the names, and the rest of the file if its end was not reached.
unfoldable pub pop_loop : ℕ → List ℕ → List (List ℕ) × Option (List ℕ)
unfolding getline
pop_loop zero reader = ([], some reader)
pop_loop (suc count) reader = elim (getline [] reader) [
  | none ↦ ([], none)
  | some line ↦ let rest = pop_loop count line.1 in (line.0 ∷ rest.0, rest.1)
]

-- `reader.tellg()`, which is -1 behind the end.
abbrev pub tellg : List ℕ → Option (List ℕ) → ℕ
tellg datafile none = minus_one64
tellg datafile (some rest) = length datafile - length rest

-- The offset is one that can be sought. At -1, where an iterator stands that has read everything and
-- has not been removed, the source pushes empty names, and here there are none.
unfoldable pub pop : List ℕ → ℕ → OnDiskIterator → List (List ℕ) × OnDiskIterator
unfolding pop_loop
pop datafile count it =
    let popped = pop_loop count (drop it.byte_offset datafile) in
    (
      popped.0,
      record it {
        byte_offset = tellg datafile popped.1;
        file_offset = u64 (it.file_offset + length popped.0);
      },
    )

abbrev pub OneLine : List ℕ → Type 0
OneLine name = All (λ c. (c == newline) ≡ false) name

getline-line :
    (next name rest : List ℕ)
    → OneLine name
    → getline next (name ++ newline ∷ rest) ≡ some (next ++ name, rest)
unfolding getline
getline-line next [] rest h = rw (append-nil next) refl
getline-line next (c ∷ name) rest h =
    rw (h.0, getline)
      (getline-line (next ++ c ∷ []) name rest h.1
        ∙ ap (λ line. some (line, rest)) (append_assoc next (c ∷ []) name))

pop_loop-names :
    (names : List (List ℕ)) (rest : List ℕ)
    → All OneLine names
    → pop_loop (length names) (write_names names ++ rest) ≡ (names, some rest)
unfolding pop_loop write_names
pop_loop-names [] rest h = refl
pop_loop-names (name ∷ names) rest h =
    let split : (name ++ newline ∷ write_names names) ++ rest
        ≡ name ++ newline ∷ (write_names names ++ rest) =
      append_assoc name (newline ∷ write_names names) rest in
    rw (split, getline-line [] name (write_names names ++ rest) h.0, pop_loop)
      (ap (λ r. (name ∷ r.0, r.1)) (pop_loop-names names rest h.1))

pop_loop-end :
    (names : List (List ℕ)) (more : ℕ)
    → All OneLine names
    → pop_loop (length names + suc more) (write_names names) ≡ (names, none)
unfolding pop_loop write_names
pop_loop-end [] more h =
    let z : 0 + suc more ≡ suc more = omega arith in rw z (unfold getline in refl)
pop_loop-end (name ∷ names) more h =
    let e : suc (length names) + suc more ≡ suc (length names + suc more) = omega arith in
    rw (e, getline-line [] name (write_names names) h.0, pop_loop)
      (ap (λ r. (name ∷ r.0, r.1)) (pop_loop-end names more h.1))

pub write_names-append :
    (xs ys : List (List ℕ)) → write_names (xs ++ ys) ≡ write_names xs ++ write_names ys
unfolding write_names
write_names-append [] ys = refl
write_names-append (x ∷ xs) ys =
    ap (λ more. x ++ newline ∷ more) (write_names-append xs ys)
    ∙ sym (append_assoc x (newline ∷ write_names xs) (write_names ys))

-- An iterator that stands behind some names of a file, of names without newlines, pops as many of the
-- next ones as it is asked for, and stands behind them; where it is asked for more than are left, it
-- pops these, and its offset is -1.
pub pop_lem :
    (before names after : List (List ℕ)) (more : ℕ) (it : OnDiskIterator)
    → All OneLine names
    → it.byte_offset ≡ length (write_names before)
    → (pop (write_names (before ++ (names ++ after))) (length names) it ≡ (
      names,
      record it {
        byte_offset = length (write_names (before ++ names));
        file_offset = u64 (it.file_offset + length names);
      },
    ))
      × (pop (write_names (before ++ names)) (length names + suc more) it ≡ (
        names,
        record it { byte_offset = minus_one64; file_offset = u64 (it.file_offset + length names) },
      ))
pop_lem before names after more it h at = (
  unfold pop in rw (whole, front, middle, behind) (ap (λ n. (names, moved n)) size),
  unfold pop in rw (write_names-append before names, last, pop_loop-end names more h) refl,
)
  where
    moved : ℕ → OnDiskIterator
    moved n = record it { byte_offset = n; file_offset = u64 (it.file_offset + length names) }

    whole :
        write_names (before ++ (names ++ after))
        ≡ write_names before ++ write_names (names ++ after)
    whole = write_names-append before (names ++ after)

    front :
        drop it.byte_offset (write_names before ++ write_names (names ++ after))
        ≡ write_names (names ++ after)
    front = drop_front (write_names before) (write_names (names ++ after)) it.byte_offset at

    middle :
        pop_loop (length names) (write_names (names ++ after)) ≡ (names, some (write_names after))
    middle =
        ap (pop_loop (length names)) (write_names-append names after)
        ∙ pop_loop-names names (write_names after) h

    last : drop it.byte_offset (write_names before ++ write_names names) ≡ write_names names
    last = drop_front (write_names before) (write_names names) it.byte_offset at

    behind : write_names (names ++ after) ≡ write_names names ++ write_names after
    behind = write_names-append names after

    size :
        length (write_names before ++ (write_names names ++ write_names after))
          - length (write_names after)
        ≡ length (write_names (before ++ names))
    size =
        let joined = ap length (write_names-append before names) in
        omega (
          arith,
          joined,
          length-append (write_names before) (write_names names ++ write_names after),
          length-append (write_names names) (write_names after),
          length-append (write_names before) (write_names names),
        )
