-- ===== src/Compiler/Location.antt =====
-- `File` of lang/src/compiler/location.rs: the line and column of a byte index. `none` is either
-- error of `position`.
pub mod Laws
use move_language_server.Base.{
  ℕ, ◌+◌, ◌-◌, ◌%◌, ◌^◌, ◌&&◌, ◌||◌, not, Bool, true, false, List, [], ◌∷◌, map, Option, none, some,
  ◌>>=◌, ltb, leb, ◌==◌, if◌then◌else◌, length, take, drop, get_elem?,
}
use move_language_server.Base.Text.{Bytes}

pub record File : Type 0 where
  pub source : Bytes
  pub line_starts : List ℕ

-- File::new, with the `line_starts` of codespan-reporting.
unfoldable pub new_file : (Bytes → List ℕ) → Bytes → File
new_file line_starts source = record {
  source = source;
  line_starts = map (λ i. i % 2 ^ 32) (line_starts source);
}

-- A byte that continues a character of UTF-8.
abbrev pub continues : ℕ → Bool
continues b = leb 128 b && ltb b 192

-- `chars().count()`
unfoldable pub char_count : Bytes → ℕ
char_count [] = 0
char_count (b ∷ s) = let rest = char_count s in if continues b then rest else rest + 1

-- `is_char_boundary`
unfoldable pub is_boundary : Bytes → ℕ → Bool
is_boundary s i = elim (get_elem? s i) [ none ↦ i == length s | some b ↦ not (continues b) ]

-- `source.get(from..to)`
unfoldable pub get_range : Bytes → ℕ → ℕ → Option Bytes
unfolding is_boundary
get_range s from to =
    if leb from to && (is_boundary s from && is_boundary s to)
    then some (take (to - from) (drop from s))
    else none

-- `binary_search` in ascending numbers: whether it found the number, and where it is or belongs.
unfoldable pub search : List ℕ → ℕ → Bool × ℕ
search [] x = (false, 0)
search (y ∷ ys) x =
    let (found, n) = search ys x in
    if y == x then (true, 0) else if ltb x y then (false, 0) else (found, n + 1)

-- The `u32` of an index, and of one less.
abbrev pub as_line : Bool × ℕ → ℕ
as_line (true, line) = line % 2 ^ 32
as_line (false, next_line) = (next_line + 2 ^ 32 - 1) % 2 ^ 32

unfoldable pub line_index : File → ℕ → ℕ
unfolding search
line_index f byte_index = as_line (search f.line_starts byte_index)

unfoldable pub line_start : File → ℕ → Option ℕ
line_start f line =
    if ltb line (length f.line_starts)
    then get_elem? f.line_starts line
    else (if line == length f.line_starts then some (length f.source) else none)

unfoldable pub position : File → ℕ → Option (ℕ × ℕ)
unfolding line_index line_start get_range char_count
position f byte_index = do
  line_start_index ← line_start f (line_index f byte_index)
  line_src ← get_range f.source line_start_index byte_index
  some (line_index f byte_index, char_count line_src % 2 ^ 32)
