-- ===== src/Compiler/LineEndings/Positions.antt =====
-- Which positions of a normalised text `translate_pos` takes back to their source.
use mathlib.Core.List.{reverse, reverse-append}
use move_language_server.Base.{
  ℕ, ◌+◌, ◌-◌, ◌*◌, ◌≤◌, ◌<◌, ◌^◌, ◌≡◌, ◌≢◌, refl, ap, ◌∙◌, arith, Bool, true, false, List, [], ◌∷◌,
  ◌++◌, ◌==◌, if◌then◌else◌, ltb, length, length-append, ◌&&◌, append_assoc, Bool-cases, inl, inr,
  All, lt→ltb, le→ltb,
}
use move_language_server.Base.Int.{pos, as_usize-add}
use move_language_server.Compiler.SourceMap.{Layer, translate, through}
use move_language_server.Compiler.SourceMap.Tracking.{through-last}
use move_language_server.Compiler.LineEndings.{lf, cr}
use move_language_server.Compiler.LineEndings.Laws.{dropped_lf, kept_char, crlf_layers}

-- Lines that each end with a carriage return and a line feed.
abbrev pub crlf_text : List (List ℕ) → List ℕ
crlf_text [] = []
crlf_text (line ∷ lines) = line ++ (cr ∷ lf ∷ crlf_text lines)

abbrev pub Plain : List ℕ → Type 0
Plain = All (λ c. c ≢ cr)

-- The layers of such lines, when the first stands at index `i`.
pub line_layers : ℕ → List (List ℕ) → List Layer
line_layers i [] = []
line_layers i (line ∷ lines) =
    record { pos = i + length line; offset = pos 1 } ∷ line_layers (i + length line + 2) lines

pub plain_step :
    (c : ℕ) (s : List ℕ) (i : ℕ)
    → c ≢ cr
    → crlf_layers false i (c ∷ s) ≡ crlf_layers false (i + 1) s
unfolding crlf_layers
plain_step c s i h = ground arith

break_step :
    (s : List ℕ) (i : ℕ)
    → crlf_layers false i (cr ∷ lf ∷ s)
      ≡ record { pos = i; offset = pos 1 } ∷ crlf_layers false (i + 2) s
unfolding crlf_layers
break_step s i =
    let e : i + 1 - 1 ≡ i = omega arith in let f : i + 1 + 1 ≡ i + 2 = omega arith in rw (e, f) refl

pub crlf_layers-Plain :
    (line rest : List ℕ) (i j : ℕ)
    → i + length line ≡ j
    → Plain line
    → crlf_layers false i (line ++ rest) ≡ crlf_layers false j rest
crlf_layers-Plain [] rest i j e h = ap (λ k. crlf_layers false k rest) (omega arith)
crlf_layers-Plain (c ∷ line) rest i j e (hc, h) =
    plain_step c (line ++ rest) i hc ∙ crlf_layers-Plain line rest (i + 1) j (omega arith) h

pub crlf_layers-lines :
    (lines : List (List ℕ)) (rest : List ℕ) (i j : ℕ)
    → i + length (crlf_text lines) ≡ j
    → All Plain lines
    → crlf_layers false i (crlf_text lines ++ rest)
      ≡ line_layers i lines ++ crlf_layers false j rest
unfolding line_layers
crlf_layers-lines [] rest i j e h = ap (λ k. crlf_layers false k rest) (omega arith)
crlf_layers-lines (line ∷ lines) rest i j e (hl, h) =
    ap (crlf_layers false i) (append_assoc line (cr ∷ lf ∷ crlf_text lines) rest)
    ∙ crlf_layers-Plain line (cr ∷ lf ∷ (crlf_text lines ++ rest)) i (i + length line) refl hl
    ∙ break_step (crlf_text lines ++ rest) (i + length line)
    ∙ ap (λ ls. record { pos = i + length line; offset = pos 1 } ∷ ls)
        (crlf_layers-lines lines rest (i + length line + 2) j
          (omega (arith, length-append line (cr ∷ lf ∷ crlf_text lines))) h)

-- A shift by one.
translate_one :
    (p q : ℕ)
    → q < 2 ^ 63
    → translate (record { pos = p; offset = pos 1 }) q ≡ (if ltb q p then q else q + 1)
unfolding translate
translate_one p q h = elim (Bool-cases (ltb q p)) [
  | inl y ↦ rw y refl
  | inr n ↦ rw n (omega (arith, as_usize-add q 1 0 (omega arith) (omega arith)))
]

-- Layers at or behind `b`.
abbrev pub Behind : ℕ → List Layer → Type 0
Behind b = All (λ l. b ≤ l.pos)

lower : (a : Bool) (i b : ℕ) → (if a then b + 1 else b) ≤ i → b ≤ i
lower a i b h = ground arith

upper : (a : Bool) (i b : ℕ) → b ≤ i → (if a then b + 1 else b) ≤ i + 1
upper a i b h = ground arith

pub Behind-crlf_layers :
    (s : List ℕ) (a : Bool) (i b : ℕ) → (if a then b + 1 else b) ≤ i → Behind b (crlf_layers a i s)
Behind-crlf_layers [] a i b h = unfold crlf_layers in tt
Behind-crlf_layers (c ∷ s) a i b h = elim (Bool-cases (c == lf && a)) [
  | inl y ↦
      rw (dropped_lf c s a i y).1
        (one_less a y h, Behind-crlf_layers s false (i + 1) b (omega (arith, lower a i b h)))
  | inr n ↦
      rw (kept_char c s a i n).1
        (Behind-crlf_layers s (c == cr) (i + 1) b (upper (c == cr) i b (lower a i b h)))
]
  where
    one_less : (a : Bool) → c == lf && a ≡ true → (if a then b + 1 else b) ≤ i → b ≤ i - 1
    one_less a y h = ground arith

through-cons :
    (l : Layer) (ls : List Layer) (q : ℕ)
    → through (reverse (l ∷ ls)) q ≡ translate l (through (reverse ls) q)
through-cons l ls q = rw (reverse-append (l ∷ []) ls) (through-last (reverse ls) l q)

pub through-Behind : (ls : List Layer) (q b : ℕ) → q < b → Behind b ls → through (reverse ls) q ≡ q
through-Behind [] q b h all = unfold through in refl
through-Behind (l ∷ ls) q b h (at, all) =
    through-cons l ls q ∙ ap (translate l) (through-Behind ls q b h all) ∙ stays l (omega arith)
  where
    stays : (l : Layer) → q < l.pos → translate l q ≡ q
    stays l h = unfold translate in rw (lt→ltb _ _ h)

length-crlf_text :
    (line : List ℕ) (lines : List (List ℕ))
    → length (crlf_text (line ∷ lines)) ≡ length line + 2 + length (crlf_text lines)
length-crlf_text line lines = omega (arith, length-append line (cr ∷ lf ∷ crlf_text lines))

two_each : (lines : List (List ℕ)) → 2 * length lines ≤ length (crlf_text lines)
two_each [] = omega arith
two_each (line ∷ lines) = omega (arith, length-crlf_text line lines, two_each lines)

-- The lines' layers, at a position that is not far in front of the lines' end.
pub through_exact :
    (lines : List (List ℕ)) (i q : ℕ)
    → i + length (crlf_text lines) ≤ q + 2
    → q + length lines < 2 ^ 63
    → through (reverse (line_layers i lines)) q ≡ q + length lines
unfolding line_layers
through_exact [] i q h small = unfold through in omega arith
through_exact (line ∷ lines) i q h small =
    let l = length-crlf_text line lines in
    let t = two_each lines in
    let ih = through_exact lines (i + length line + 2) q (omega arith) (omega arith) in
    through-cons (record { pos = i + length line; offset = pos 1 })
      (line_layers (i + length line + 2) lines) q
    ∙ ap (translate (record { pos = i + length line; offset = pos 1 })) ih
    ∙ translate_one (i + length line) (q + length lines) (omega arith)
    ∙ rw (le→ltb (q + length lines) (i + length line) (omega arith)) (omega arith)

one_more : (p q : ℕ) → q < 2 ^ 63 → translate (record { pos = p; offset = pos 1 }) q ≤ q + 1
one_more p q h = rw (translate_one p q h) (ground arith)

-- At a position farther in front, one of the layers is not applied.
pub through_short :
    (lines : List (List ℕ)) (line : List ℕ) (i q : ℕ)
    → q + 2 < i + length (crlf_text (line ∷ lines))
    → q + length (line ∷ lines) < 2 ^ 63
    → through (reverse (line_layers i (line ∷ lines))) q < q + length (line ∷ lines)
unfolding line_layers
through_short [] line i q h small =
    let l = length-crlf_text line [] in
    rw (through-cons (record { pos = i + length line; offset = pos 1 }) [] q) (
      unfold through in
      rw (translate_one (i + length line) q (omega arith))
        (rw (lt→ltb q (i + length line) (omega arith)) (omega arith)))
through_short (next ∷ lines) line i q h small =
    let l = length-crlf_text line (next ∷ lines) in
    let ih = through_short lines next (i + length line + 2) q (omega arith) (omega arith) in
    let rest = through (reverse (line_layers (i + length line + 2) (next ∷ lines))) q in
    rw
      (through-cons (record { pos = i + length line; offset = pos 1 })
        (line_layers (i + length line + 2) (next ∷ lines)) q)
      (omega (arith, one_more (i + length line) rest (omega arith)))
