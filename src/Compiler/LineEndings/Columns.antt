-- ===== src/Compiler/LineEndings/Columns.antt =====
-- Where `translate_pos` leads a character of a normalised text, by its line and column.
use mathlib.Core.List.{reverse, reverse-append}
use move_language_server.Base.{
  ℕ, ◌+◌, ◌≤◌, ◌<◌, ◌^◌, ◌≡◌, ◌≢◌, refl, sym, ap, ◌∙◌, arith, false, List, [], ◌∷◌, ◌++◌, some,
  length, length-append, append_assoc, All, All-append, get_elem?, get_elem?-append_right,
}
use move_language_server.Base.Utf8.{Ascii, encode, encode-Ascii}
use move_language_server.Compiler.SourceMap.{Layer, through, translate_pos}
use move_language_server.Compiler.SourceMap.Tracking.{through-append}
use move_language_server.Compiler.LineEndings.{normalize, lf, cr}
use move_language_server.Compiler.LineEndings.Laws.{unix, crlf_layers, normalize-unix}
use move_language_server.Compiler.LineEndings.Positions.{
  crlf_text, Plain, plain_step, line_layers, crlf_layers-Plain, crlf_layers-lines,
  Behind-crlf_layers, through-Behind, through_exact, through_short,
}

-- The lines, each with a line feed.
abbrev pub lf_text : List (List ℕ) → List ℕ
lf_text [] = []
lf_text (line ∷ lines) = line ++ (lf ∷ lf_text lines)

length-lf_text :
    (lines : List (List ℕ)) → length (lf_text lines) + length lines ≡ length (crlf_text lines)
length-lf_text [] = omega arith
length-lf_text (line ∷ lines) = omega (
  arith,
  length-append line (lf ∷ lf_text lines),
  length-append line (cr ∷ lf ∷ crlf_text lines),
  length-lf_text lines,
)

unix_kept : (c : ℕ) (s : List ℕ) → c ≢ cr → unix false (c ∷ s) ≡ c ∷ unix false s
unfolding unix
unix_kept c s h = ground arith

unix_break : (s : List ℕ) → unix false (cr ∷ lf ∷ s) ≡ lf ∷ unix false s
unfolding unix
unix_break s = refl

unix-Plain : (line rest : List ℕ) → Plain line → unix false (line ++ rest) ≡ line ++ unix false rest
unix-Plain [] rest h = refl
unix-Plain (c ∷ line) rest (hc, h) =
    unix_kept c (line ++ rest) hc ∙ ap (λ t. c ∷ t) (unix-Plain line rest h)

unix-lines :
    (lines : List (List ℕ)) (rest : List ℕ)
    → All Plain lines
    → unix false (crlf_text lines ++ rest) ≡ lf_text lines ++ unix false rest
unix-lines [] rest h = refl
unix-lines (line ∷ lines) rest (hl, h) =
    ap (unix false) (append_assoc line (cr ∷ lf ∷ crlf_text lines) rest)
    ∙ unix-Plain line (cr ∷ lf ∷ (crlf_text lines ++ rest)) hl
    ∙ ap (λ t. line ++ t)
        (unix_break (crlf_text lines ++ rest) ∙ ap (λ t. lf ∷ t) (unix-lines lines rest h))
    ∙ sym (append_assoc line (lf ∷ lf_text lines) (unix false rest))

-- A text in which the lines `before` stand in front of a line with `left` and then `c`.
abbrev pub source : List (List ℕ) → List ℕ → ℕ → List ℕ → List ℕ
source before left c rest = crlf_text before ++ (left ++ (c ∷ rest))

-- A text in which `before` stands line by line in front of a line with `left` and then `c`.
module _ (before : List (List ℕ)) (left : List ℕ) (c : ℕ) (rest : List ℕ) (lines : All Plain before)
    (plain : Plain left) (char : c ≢ cr) where
  normal_text :
      (normalize (source before left c rest)).0 ≡ lf_text before ++ (left ++ (c ∷ unix false rest))
  normal_text = rw (normalize-unix (source before left c rest)) (
      unix-lines before (left ++ (c ∷ rest)) lines
      ∙ ap (λ t. lf_text before ++ t)
          (unix-Plain left (c ∷ rest) plain ∙ ap (λ t. left ++ t) (unix_kept c rest char)))

  later : List Layer
  later = crlf_layers false (length (crlf_text before) + length left + 1) rest

  layers_split : crlf_layers false 0 (source before left c rest) ≡ line_layers 0 before ++ later
  unfolding later
  layers_split =
      crlf_layers-lines before (left ++ (c ∷ rest)) 0 (length (crlf_text before)) (omega arith)
        lines
      ∙ ap (λ ls. line_layers 0 before ++ ls)
          (crlf_layers-Plain left (c ∷ rest) (length (crlf_text before)) _ refl plain
            ∙ plain_step c rest (length (crlf_text before) + length left) char)

  -- Only the layers of the lines before can move the position.
  lines_only :
      (q : ℕ)
      → q + length before ≡ length (crlf_text before) + length left
      → translate_pos (normalize (source before left c rest)).1 q
        ≡ through (reverse (line_layers 0 before)) q
  unfolding translate_pos
  lines_only q at =
      let b = length (crlf_text before) + length left + 1 in
      rw (normalize-unix (source before left c rest), layers_split)
        (rw (reverse-append (line_layers 0 before) later, through-append)
          (ap (through (reverse (line_layers 0 before))) (
            through-Behind later q b (omega arith)
              (unfold later in Behind-crlf_layers rest false b b (omega arith)))))

Ascii-lf_text : (lines : List (List ℕ)) → All Ascii lines → Ascii (lf_text lines)
Ascii-lf_text [] h = tt
Ascii-lf_text (line ∷ lines) (h, hs) =
    All-append (λ c. c < 128) line (lf ∷ lf_text lines) h (omega arith, Ascii-lf_text lines hs)

Ascii-crlf_text : (lines : List (List ℕ)) → All Ascii lines → Ascii (crlf_text lines)
Ascii-crlf_text [] h = tt
Ascii-crlf_text (line ∷ lines) (h, hs) =
    All-append (λ c. c < 128) line (cr ∷ lf ∷ crlf_text lines) h
      (omega arith, (omega arith, Ascii-crlf_text lines hs))

-- The byte behind characters of ASCII.
encoded_at :
    (front left : List ℕ) (c : ℕ) (rest : List ℕ) (i : ℕ)
    → Ascii front
    → Ascii left
    → c < 128
    → length front + length left ≡ i
    → get_elem? (encode (front ++ (left ++ (c ∷ rest)))) i ≡ some c
encoded_at front left c rest i f l ascii e =
    ap (λ t. get_elem? t i)
      (encode-Ascii front (left ++ (c ∷ rest)) f
        ∙ ap (λ t. front ++ t)
            (encode-Ascii left (c ∷ rest) l
              ∙ ap (λ t. left ++ t) (encode-Ascii (c ∷ []) rest (ascii, tt))))
    ∙ get_elem?-append_right front _ i (length left) (omega arith)
    ∙ get_elem?-append_right left (c ∷ encode rest) (length left) 0 (omega arith)

-- In a text whose lines end with a carriage return and a line feed and hold no other carriage
-- return, take the character `c`, itself none, in column `length left` of the line behind the
-- lines `before`. All up to `c` is ASCII; what follows may be any text. Its byte stands in the
-- source at `q + length before` and in the normalised text at `q`. If the column is at least the
-- number of lines before, less two, `translate_pos` leads `q` to the place in the source; else it
-- leads to a place before it. The place in the source is below 2^63.
pub translate_pos_column :
    (before : List (List ℕ)) (left : List ℕ) (c : ℕ) (rest : List ℕ) (q : ℕ)
    → All Plain before
    → Plain left
    → c ≢ cr
    → All Ascii before
    → Ascii left
    → c < 128
    → q + length before ≡ length (crlf_text before) + length left
    → q + length before < 2 ^ 63
    → (get_elem? (encode (source before left c rest)) (q + length before) ≡ some c)
      × (get_elem? (encode (normalize (source before left c rest)).0) q ≡ some c)
      × (length before ≤ length left + 2
          → translate_pos (normalize (source before left c rest)).1 q ≡ q + length before)
      × (length left + 2 < length before
          → translate_pos (normalize (source before left c rest)).1 q < q + length before)
translate_pos_column before left c rest q lines plain char ascii_lines ascii_left ascii at small = (
  encoded_at (crlf_text before) left c rest (q + length before) (Ascii-crlf_text before ascii_lines)
      ascii_left ascii (omega arith),
  rw (normal_text before left c rest lines plain char) (
      encoded_at (lf_text before) left c (unix false rest) q (Ascii-lf_text before ascii_lines)
        ascii_left ascii (omega (arith, length-lf_text before))),
  λ near.
      lines_only before left c rest lines plain char q at
      ∙ through_exact before 0 q (omega arith) small,
  λ far. rw (lines_only before left c rest lines plain char q at) (short before at far small),
)
  where
    short :
        (before : List (List ℕ))
        → q + length before ≡ length (crlf_text before) + length left
        → length left + 2 < length before
        → q + length before < 2 ^ 63
        → through (reverse (line_layers 0 before)) q < q + length before
    short [] at far small = absurd (omega arith)
    short (line ∷ more) at far small = through_short more line 0 q (omega arith) small
