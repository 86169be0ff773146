-- ===== src/Compiler/SourceMap.antt =====
-- lang/src/compiler/source_map.rs: the layers of a file's offset map, and how a position of the
-- normalised text is translated back through them. Texts are lists of bytes.
pub mod Edits
pub mod Tracking
pub mod Project
use Prim.Native.Nat.{suc}
use mathlib.Core.List.{reverse}
use move_language_server.Base.{
  ℕ, zero, ◌+◌, ◌%◌, ◌^◌, String, Bool, true, false, List, [], ◌∷◌, ◌++◌, ltb, if◌then◌else◌,
  length, drop, map,
}
use move_language_server.Base.Int.{ℤ, pos, ◌+ℤ◌, sub_ℕ, as_usize}
use move_language_server.Base.Text.{Bytes, starts_with}

-- `orig.len() as isize - replacement.len() as isize`
abbrev pub len_difference : Bytes → Bytes → ℤ
len_difference orig replacement = sub_ℕ (length orig) (length replacement)

pub record Layer : Type 0 where
  pub pos : ℕ
  pub offset : ℤ

-- `(pos as isize + self.offset) as usize` keeps its wrap-around in `as_usize`.
unfoldable pub translate : Layer → ℕ → ℕ
translate layer p = if ltb p layer.pos then p else as_usize (pos p +ℤ layer.offset)

pub record FileOffsetMap : Type 0 where
  pub layers : List Layer
  pub address_replacements : List (Bytes × Bytes)

abbrev pub empty_map : FileOffsetMap
empty_map = record { layers = []; address_replacements = [] }

unfoldable pub insert_layer : FileOffsetMap → ℕ → ℤ → FileOffsetMap
insert_layer m p offset = record m { layers = m.layers ++ record { pos = p; offset = offset } ∷ [] }

unfoldable pub insert_address_replacement : FileOffsetMap → Bytes → Bytes → FileOffsetMap
insert_address_replacement m original replacement = record m {
  address_replacements = m.address_replacements ++ (original, replacement) ∷ [];
}

unfoldable pub insert_address_layer : FileOffsetMap → ℕ → Bytes → Bytes → FileOffsetMap
unfolding insert_layer insert_address_replacement
insert_address_layer m original_end_pos original replacement =
    insert_address_replacement
      (insert_layer m original_end_pos (len_difference original replacement)) original replacement

-- The loop of `translate_pos` over a list of layers.
unfoldable pub through : List Layer → ℕ → ℕ
unfolding translate
through [] real_pos = real_pos
through (layer ∷ layers) real_pos = through layers (translate layer real_pos)

-- The layers are undone from the last to the first.
unfoldable pub translate_pos : FileOffsetMap → ℕ → ℕ
unfolding through
translate_pos m p = through (reverse m.layers) p

pub record Span : Type 0 where
  pub start : ℕ
  pub end : ℕ

pub record Loc : Type 0 where
  pub file : String
  pub span : Span

-- The casts `as u32` of the translated ends. `Span::new` is codespan's.
unfoldable pub translate_span : FileOffsetMap → Span → Span
unfolding translate_pos
translate_span m s = record {
  start = translate_pos m s.start % 2 ^ 32;
  end = translate_pos m s.end % 2 ^ 32;
}
