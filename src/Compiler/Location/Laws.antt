-- ===== src/Compiler/Location/Laws.antt =====
-- The line that `position` finds.
use mathlib.Core.Path.{subst}
use move_language_server.Base.{
  ℕ, zero, suc, ◌+◌, ◌%◌, ◌^◌, ◌≤◌, ◌<◌, ◌≡◌, refl, sym, ap, ◌∙◌, arith, Bool, true, false, List,
  [], ◌∷◌, Option, some, ltb, leb, ◌-◌, ◌==◌, length, take, drop, get_elem?, All, Bool-cases, inl,
  inr, lt→ltb, >>=-eq-some,
}
use move_language_server.Base.Text.{Bytes}
use move_language_server.Compiler.Location.{
  File, search, as_line, line_index, line_start, get_range, is_boundary, char_count, position,
}

abbrev pub Ascending : List ℕ → Type 0
Ascending [] = Unit
Ascending (x ∷ xs) = All (λ y. x < y) xs × Ascending xs

All-below : (p x : ℕ) (xs : List ℕ) → p ≤ x → All (λ y. x < y) xs → All (λ y. p < y) xs
All-below p x [] h all = tt
All-below p x (y ∷ xs) h (first, all) = (omega arith, All-below p x xs h all)

-- How many numbers are at most the one that was sought.
abbrev upto : Bool × ℕ → ℕ
upto (true, n) = n + 1
upto (false, n) = n

Splits : ℕ → List ℕ → ℕ → Type 0
Splits p xs n = All (λ y. y ≤ p) (take n xs) × All (λ y. p < y) (drop n xs) × (n ≤ length xs)

later_start :
    (p x : ℕ) (xs : List ℕ) (r : Bool × ℕ)
    → Splits p xs (upto r)
    → x ≤ p
    → Splits p (x ∷ xs) (upto (r.0, r.1 + 1))
unfolding Splits
later_start p x xs (true, n) (below, beyond, inside) e =
    let f : n + 1 + 1 ≡ suc (n + 1) = omega arith in rw f ((e, below), beyond, omega arith)
later_start p x xs (false, n) (below, beyond, inside) e =
    let f : n + 1 ≡ suc n = omega arith in rw f ((e, below), beyond, omega arith)

search-Splits : (p : ℕ) (xs : List ℕ) → Ascending xs → Splits p xs (upto (search xs p))
unfolding search Splits
search-Splits p [] h = (tt, tt, omega arith)
search-Splits p (x ∷ xs) (above, h) = elim (Bool-cases (x == p)) [
  | inl y ↦
      let e : x ≡ p = ground arith in
      rw y ((omega arith, tt), All-below p x xs (omega arith) above, omega arith)
  | inr n ↦ elim (Bool-cases (ltb p x)) [
    | inl y ↦
        let e : p < x = ground arith in
        rw (n, y) (tt, (e, All-below p x xs (omega arith) above), omega arith)
    | inr m ↦
        let e : x ≤ p = ground arith in
        rw (n, m) (later_start p x xs (search xs p) (search-Splits p xs h) e)
  ]
]

line_of : (a b c d : ℕ) → ◌≡◌ {A = Option (ℕ × ℕ)} (some (a, b)) (some (c, d)) → a ≡ c
line_of a b c d h = cc

column_of : (a b c d : ℕ) → ◌≡◌ {A = Option (ℕ × ℕ)} (some (a, b)) (some (c, d)) → b ≡ d
column_of a b c d h = cc

as_line-upto : (r : Bool × ℕ) → 1 ≤ upto r → upto r < 2 ^ 32 → as_line r + 1 ≡ upto r
as_line-upto (true, n) some_line few = omega arith
as_line-upto (false, n) some_line few = omega arith

first_start : (p : ℕ) (rest : List ℕ) (n : ℕ) → Splits p (0 ∷ rest) n → 1 ≤ n
unfolding Splits
first_start p rest zero (below, (first, beyond), inside) = omega arith
first_start p rest (suc n) h = omega arith

start_of_line :
    (f : File) (line start : ℕ)
    → line < length f.line_starts
    → line_start f line ≡ some start
    → get_elem? f.line_starts line ≡ some start
unfolding line_start
start_of_line f line start h e =
    let e' : get_elem? f.line_starts line ≡ some start =
      rw (lt→ltb line (length f.line_starts) h) at e in
    e'

line_of_start :
    (f : File) (line start : ℕ)
    → line < length f.line_starts
    → get_elem? f.line_starts line ≡ some start
    → line_start f line ≡ some start
unfolding line_start
line_of_start f line start h e = rw (lt→ltb line (length f.line_starts) h) e

range :
    (s : Bytes) (from to : ℕ)
    → from ≤ to
    → is_boundary s from ≡ true
    → is_boundary s to ≡ true
    → get_range s from to ≡ some (take (to - from) (drop from s))
unfolding get_range
range s from to h b c = let e : leb from to ≡ true = ground arith in rw (e, b, c) refl

-- In a file whose lines start at ascending bytes, the first at 0, and that has fewer than 2^32
-- lines, a position that is returned names the last line that starts at or before the byte, and
-- its column counts the characters from the start of that line to the byte.
pub position_lem :
    (f : File) (rest : List ℕ) (byte_index line column : ℕ)
    → f.line_starts ≡ 0 ∷ rest
    → Ascending (0 ∷ rest)
    → length f.line_starts < 2 ^ 32
    → position f byte_index ≡ some (line, column)
    → All (λ start. start ≤ byte_index) (take (line + 1) f.line_starts)
      × All (λ start. byte_index < start) (drop (line + 1) f.line_starts)
      × ((start : ℕ) × (src : Bytes) × (get_elem? f.line_starts line ≡ some start)
          × (get_range f.source start byte_index ≡ some src)
          × (column ≡ char_count src % 2 ^ 32))
unfolding position Splits
position_lem f rest byte_index line column starts ascending few h =
    let found = search f.line_starts byte_index in
    let splits : Splits byte_index f.line_starts (upto found) =
      search-Splits byte_index f.line_starts (subst Ascending (sym starts) ascending) in
    let (below, beyond, inside) = splits in
    let one : 1 ≤ upto found =
      first_start byte_index rest (upto found)
        (subst (λ xs. Splits byte_index xs (upto found)) starts splits) in
    let is : line_index f byte_index + 1 ≡ upto found = as_line-upto found one (omega (arith)) in
    let (start, started, more) = >>=-eq-some (line_start f (line_index f byte_index)) _ h in
    let (src, got, end) = >>=-eq-some (get_range f.source start byte_index) _ more in
    let same : line_index f byte_index ≡ line = line_of _ _ _ _ end in
    let upto_line : line + 1 ≡ upto found = omega arith in
    (
      rw upto_line below,
      rw upto_line beyond,
      (
        start,
        src,
        start_of_line f line start (omega arith) (ap (line_start f) (sym same) ∙ started),
        got,
        sym (column_of _ _ _ _ end),
      ),
    )

All-get_elem? : (P : ℕ → Type 0) (xs : List ℕ) (i x : ℕ) → All P xs → get_elem? xs i ≡ some x → P x
All-get_elem? P [] i x all h = cc
All-get_elem? P (y ∷ xs) zero x (first, all) h = let e : y ≡ x = cc in subst P e first
All-get_elem? P (y ∷ xs) (suc i) x (first, all) h = All-get_elem? P xs i x all h

-- An index inside the list that a bound on a front part reaches has an element within the bound.
bounded_element :
    (p : ℕ) (xs : List ℕ) (i : ℕ)
    → i < length xs
    → All (λ y. y ≤ p) (take (suc i) xs)
    → (x : ℕ) × (get_elem? xs i ≡ some x) × (x ≤ p)
bounded_element p [] i h all = absurd (omega arith)
bounded_element p (x ∷ xs) zero h (first, all) = (x, refl, first)
bounded_element p (x ∷ xs) (suc i) h (first, all) = bounded_element p xs i (omega arith) all

-- A byte index at a character's boundary has a position, in a file whose lines start at ascending
-- boundaries of characters, the first at 0, and that has fewer than 2^32 lines.
pub position_returns :
    (f : File) (rest : List ℕ) (byte_index : ℕ)
    → f.line_starts ≡ 0 ∷ rest
    → Ascending (0 ∷ rest)
    → length f.line_starts < 2 ^ 32
    → All (λ start. is_boundary f.source start ≡ true) f.line_starts
    → is_boundary f.source byte_index ≡ true
    → (found : ℕ × ℕ) × (position f byte_index ≡ some found)
unfolding position Splits
position_returns f rest byte_index starts ascending few all at =
    let found = search f.line_starts byte_index in
    let splits : Splits byte_index f.line_starts (upto found) =
      search-Splits byte_index f.line_starts (subst Ascending (sym starts) ascending) in
    let (below, beyond, inside) = splits in
    let one : 1 ≤ upto found =
      first_start byte_index rest (upto found)
        (subst (λ xs. Splits byte_index xs (upto found)) starts splits) in
    let is : upto found ≡ suc (line_index f byte_index) =
      omega (arith, as_line-upto found one (omega arith)) in
    let (start, started, before) =
      bounded_element byte_index f.line_starts (line_index f byte_index) (omega arith)
        (subst (λ n. All (λ y. y ≤ byte_index) (take n f.line_starts)) is below) in
    let bound =
      All-get_elem? (λ s. is_boundary f.source s ≡ true) f.line_starts (line_index f byte_index)
        start all started in
    (
      (
        line_index f byte_index,
        char_count (take (byte_index - start) (drop start f.source)) % 2 ^ 32,
      ),
      rw
          (
            line_of_start f (line_index f byte_index) start (omega arith) started,
            range f.source start byte_index before bound at,
          )
          refl,
    )
