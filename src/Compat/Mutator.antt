-- ===== src/Compat/Mutator.antt =====
-- lang/compat/src/mutator.rs: replacements of byte ranges are collected and then made in place, in
-- the order of their starts. `none` is a panic of a slice or vector operation.
pub mod Slices
pub mod Patch
pub mod InPlace
pub mod Sorting
use mathlib.Core.List.{foldr}
use move_language_server.Base.{
  ℕ, zero, suc, ◌+◌, ◌-◌, ◌≤◌, ◌<◌, ◌==◌, ◌&&◌, Bool, true, false, List, [], ◌∷◌, ◌++◌, Option,
  none, some, ◌>>=◌, ltb, leb, length, take, drop, get_elem?, if◌then◌else◌,
}
use move_language_server.Base.Int.{ℤ, pos, negsuc, ◌+ℤ◌, sub_ℕ, as_usize}
use move_language_server.Base.Text.{Bytes}

pub record Diff : Type 0 where
  pub start : ℕ
  pub end : ℕ
  pub value : Bytes

abbrev pub Mutator : Type 0
Mutator = List Diff

abbrev pub new : Mutator
new = []

unfoldable pub make_diff : Mutator → ℕ → ℕ → Bytes → Mutator
make_diff m start_offset end_offset new_value =
    m ++ record { start = start_offset; end = end_offset; value = new_value } ∷ []

-- Diff::offset_diff, for a range with start ≤ end.
unfoldable pub offset_diff : Diff → ℤ
offset_diff d = sub_ℕ (length d.value) (d.end - d.start)

-- Diff::start_with_diff, and the two ends of Diff::source_range_with_diff.
abbrev pub shifted : ℕ → ℤ → ℕ
shifted p offset = as_usize (pos p +ℤ offset)

-- Vec::insert
unfoldable pub vec_insert : Bytes → ℕ → ℕ → Option Bytes
vec_insert b i v = if leb i (length b) then some (take i b ++ (v ∷ drop i b)) else none

-- Vec::remove
unfoldable pub vec_remove : Bytes → ℕ → Option Bytes
vec_remove b i = if ltb i (length b) then some (take i b ++ drop (i + 1) b) else none

-- `buffer[lo..hi].copy_from_slice(src)`
unfoldable pub write_slice : Bytes → ℕ → ℕ → Bytes → Option Bytes
write_slice b lo hi src =
    if leb lo hi && (leb hi (length b) && length src == hi - lo)
    then some (take lo b ++ (src ++ drop hi b))
    else none

-- `for src_index in 0..n { buffer.insert(start + src_index, value[src_index]) }`, from `src_index`.
unfoldable pub insert_loop : ℕ → ℕ → ℕ → Bytes → Bytes → Option Bytes
insert_loop zero src_index start value b = some b
insert_loop (suc n) src_index start value b = do
  v ← get_elem? value src_index
  b' ← vec_insert b (start + src_index) v
  insert_loop n (src_index + 1) start value b'

-- `for _ in 0..n { buffer.remove(start) }`
unfoldable pub remove_loop : ℕ → ℕ → Bytes → Option Bytes
remove_loop zero start b = some b
remove_loop (suc n) start b = do b' ← vec_remove b start; remove_loop n start b'

-- The three arms of the `match` on the difference of the lengths.
unfoldable pub replace : Diff → ℤ → ℤ → Bytes → Option Bytes
unfolding insert_loop remove_loop write_slice
replace d offset (pos zero) b =
    write_slice b (shifted d.start offset) (shifted d.end offset) d.value
replace d offset (pos (suc n)) b = do
  b' ← insert_loop (suc n) 0 (shifted d.start offset) d.value b
  write_slice b' (shifted d.start offset + suc n) (shifted d.end offset + suc n)
      (drop (suc n) d.value)
replace d offset (negsuc n) b = do
  b' ← remove_loop (suc n) (shifted d.start offset) b
  write_slice b' (shifted d.start offset) (shifted d.start offset + length d.value) d.value

-- The loop over the sorted mutations.
unfoldable pub mutate_loop : ℕ → List Diff → ℤ → Bytes → Option Bytes
unfolding replace offset_diff
mutate_loop origin_len [] offset b = some b
mutate_loop origin_len (d ∷ ds) offset b =
    let appended = mutate_loop origin_len ds offset (b ++ d.value) in
    let replaced = (do
      b' ← replace d offset (offset_diff d) b
      mutate_loop origin_len ds (offset +ℤ offset_diff d) b') in
    if leb origin_len d.start then appended else replaced

-- `sort_by` on the starts is a stable sort.
unfoldable pub insert_sorted : Diff → List Diff → List Diff
insert_sorted d [] = d ∷ []
insert_sorted d (x ∷ xs) = if leb d.start x.start then d ∷ x ∷ xs else x ∷ insert_sorted d xs

unfoldable pub sort_by_start : List Diff → List Diff
unfolding insert_sorted
sort_by_start [] = []
sort_by_start (d ∷ ds) = insert_sorted d (sort_by_start ds)

unfoldable pub mutate : Mutator → Bytes → Option Bytes
unfolding mutate_loop sort_by_start
mutate m buffer = mutate_loop (length buffer) (sort_by_start m) (pos 0) buffer
