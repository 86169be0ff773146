-- ===== src/Compiler/LineEndings.antt =====
-- lang/src/compiler/dialects/line_endings.rs: the iterator that turns carriage returns into line
-- feeds. Characters are their code points; `pos` counts characters, as in the source.
pub mod Laws
pub mod Positions
pub mod Columns
use move_language_server.Base.{
  ℕ, zero, suc, ◌+◌, ◌-◌, Bool, true, false, List, [], ◌∷◌, ◌++◌, Option, none, some, ◌==◌,
  if◌then◌else◌, length, ◌&&◌,
}
use move_language_server.Base.Int.{pos}
use move_language_server.Compiler.SourceMap.{FileOffsetMap, empty_map, insert_layer}

abbrev pub lf : ℕ
lf = 10

abbrev pub cr : ℕ
cr = 13

abbrev pub pattern_length : ℕ
pattern_length = 2

pub record NewNormalized : Type 0 where
  pub chars : List ℕ
  pub prev_was_carriage_return : Bool
  pub pos : ℕ
  pub source_map : FileOffsetMap

-- The next character, if any, and the characters behind it.
abbrev pub uncons : List ℕ → Option ℕ × List ℕ
uncons [] = (none, [])
uncons (c ∷ s) = (some c, s)

unfoldable pub inner_next : NewNormalized → Option ℕ × NewNormalized
inner_next n = let (c, rest) = uncons n.chars in (c, record n { pos = n.pos + 1; chars = rest })

-- The `match` arms `Some('\r')` and `any`, which both matches of `next` end with.
unfoldable pub emit : Option ℕ × NewNormalized → Option ℕ × NewNormalized
emit (none, n) = (none, record n { prev_was_carriage_return = false })
emit (some c, n) =
    if c == cr
    then (some lf, record n { prev_was_carriage_return = true })
    else (some c, record n { prev_was_carriage_return = false })

-- The first arm: a line feed behind a carriage return is dropped, with a layer.
unfoldable pub next_of : Option ℕ × NewNormalized → Option ℕ × NewNormalized
unfolding emit inner_next insert_layer
next_of (none, n) = emit (none, n)
next_of (some c, n) =
    if c == lf && n.prev_was_carriage_return
    then emit (
        inner_next (record n {
          source_map = insert_layer n.source_map (n.pos - pattern_length) (pos 1);
          prev_was_carriage_return = false;
        }))
    else emit (some c, n)

unfoldable pub next : NewNormalized → Option ℕ × NewNormalized
unfolding next_of
next n = next_of (inner_next n)

-- What `collect` does with the answer of `next`.
unfoldable pub gather :
    (NewNormalized → List ℕ × FileOffsetMap) → Option ℕ × NewNormalized → List ℕ × FileOffsetMap
gather continue (none, n) = ([], n.source_map)
gather continue (some c, n) = let (rest, m) = continue n in (c ∷ rest, m)

-- `collect` calls `next` until it returns `None`; the fuel is more than the characters.
unfoldable pub collect : ℕ → NewNormalized → List ℕ × FileOffsetMap
unfolding next gather
collect zero n = ([], n.source_map)
collect (suc fuel) n = gather (collect fuel) (next n)

unfoldable pub normalize : List ℕ → List ℕ × FileOffsetMap
unfolding collect
normalize s =
    collect (length s + 1)
      (record { chars = s; prev_was_carriage_return = false; pos = 0; source_map = empty_map })
