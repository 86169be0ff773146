-- ===== src/Compiler/SourceMap/Project.antt =====
-- `ProjectOffsetMap` of lang/src/compiler/source_map.rs: the errors of the compiler, in the
-- normalised texts, are taken back to the sources of their files.
use mathlib.Core.List.{reverse}
use move_language_server.Base.{
  ℕ, zero, suc, ◌-◌, ◌%◌, ◌^◌, ◌≡◌, ◌&&◌, Bool, leb, List, [], ◌∷◌, ◌++◌, Option, some, ◌>>=◌,
  if◌then◌else◌, length,
}
use move_language_server.Base.Assoc.{Assoc, lookup, insert}
use move_language_server.Base.Classes.{string_eq}
use move_language_server.Base.{String}
use move_language_server.Base.Text.{Bytes, starts_with}
use move_language_server.Compiler.SourceMap.{FileOffsetMap, Loc, translate_pos, translate_span}

-- The rest of `msg.replace(from, to)` behind the `skip` bytes of a match, for a `from` with bytes.
unfoldable pub replace_from : ℕ → Bytes → Bytes → Bytes → Bytes
replace_from skip from to [] = []
replace_from (suc skip) from to (c ∷ msg) = replace_from skip from to msg
replace_from zero from to (c ∷ msg) =
    let kept = c ∷ replace_from zero from to msg in
    let replaced = to ++ replace_from (length from - 1) from to msg in
    if starts_with (c ∷ msg) from then replaced else kept

-- The bytes with `to` before each and at the end. An address is ASCII.
unfoldable pub spread : Bytes → Bytes → Bytes
spread to [] = to
spread to (c ∷ msg) = to ++ (c ∷ spread to msg)

-- msg.replace(from, to)
unfoldable pub replace_text : Bytes → Bytes → Bytes → Bytes
unfolding replace_from spread
replace_text [] to msg = spread to msg
replace_text (b ∷ from) to msg = replace_from zero (b ∷ from) to msg

unfoldable pub undo_replacements : List (Bytes × Bytes) → Bytes → Bytes
unfolding replace_text
undo_replacements [] msg = msg
undo_replacements ((orig, replacement) ∷ rest) msg =
    undo_replacements rest (replace_text replacement orig msg)

unfoldable pub translate_message : FileOffsetMap → Bytes → Bytes
unfolding undo_replacements
translate_message m msg = undo_replacements (reverse m.address_replacements) msg

unfoldable pub translate_error : FileOffsetMap → Loc × Bytes → Loc × Bytes
unfolding translate_message translate_span
translate_error m (loc, msg) =
    (record loc { span = translate_span m loc.span }, translate_message m msg)

abbrev pub ProjectOffsetMap : Type 0
ProjectOffsetMap = Assoc String FileOffsetMap

unfoldable pub with_file_map : String → FileOffsetMap → ProjectOffsetMap
with_file_map fpath m = insert fpath m []

unfoldable pub insert_map : ProjectOffsetMap → String → FileOffsetMap → ProjectOffsetMap
insert_map project fpath m = insert fpath m project

abbrev pub Error : Type 0
Error = List (Loc × Bytes)

-- `none` is the panic of an index of the map that is missing.
unfoldable pub transform_error : ProjectOffsetMap → Error → Option Error
unfolding translate_error
transform_error project [] = some []
transform_error project ((loc, msg) ∷ parts) = do
  m ← lookup loc.file project
  rest ← transform_error project parts
  some (translate_error m (loc, msg) ∷ rest)

unfoldable pub transform : ProjectOffsetMap → List Error → Option (List Error)
unfolding transform_error
transform project [] = some []
transform project (error ∷ errors) = do
  e ← transform_error project error
  es ← transform project errors
  some (e ∷ es)

pub record Location : Type 0 where
  pub fpath : String
  pub span : ℕ × ℕ

unfoldable pub is_inside_interval : Location → ℕ → ℕ → Bool
is_inside_interval l start end = leb start l.span.0 && leb l.span.0 end

-- The replacements of addresses undone, the last one first.
abbrev pub undone : List (Bytes × Bytes) → Bytes → Bytes
undone [] msg = msg
undone ((orig, replacement) ∷ rest) msg = replace_text replacement orig (undone rest msg)

-- Part by part: the file stays, the ends of the span are translated by its own map, and the replacements
-- of addresses that this map lists are undone in the message.
pub Translated : ProjectOffsetMap → Error → Error → Type 0
Translated project [] [] = Unit
Translated project [] (q ∷ qs) = ⊥
Translated project (p ∷ ps) [] = ⊥
Translated project (p ∷ ps) (q ∷ qs) =
    ((m : FileOffsetMap) × (lookup p.0.file project ≡ some m)
      × (q.0.file ≡ p.0.file)
      × ((q.0.span).start ≡ translate_pos m (p.0.span).start % 2 ^ 32)
      × ((q.0.span).end ≡ translate_pos m (p.0.span).end % 2 ^ 32)
      × (q.1 ≡ undone m.address_replacements p.1))
    × Translated project ps qs

pub AllTranslated : ProjectOffsetMap → List Error → List Error → Type 0
AllTranslated project [] [] = Unit
AllTranslated project [] (q ∷ qs) = ⊥
AllTranslated project (p ∷ ps) [] = ⊥
AllTranslated project (p ∷ ps) (q ∷ qs) = Translated project p q × AllTranslated project ps qs
