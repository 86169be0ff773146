-- ===== src/Compiler/Sender.antt =====
-- `replace_sender_placeholder` of lang/src/compiler/parser.rs: both spellings of the placeholder
-- are replaced by the sender's address, from the front, until none is left.
pub mod Loop
pub mod Laws
use move_language_server.Base.{
  ℕ, zero, suc, ◌+◌, true, false, List, [], ◌∷◌, ◌++◌, Option, none, some, ◌>>=◌, ltb, length,
}
use move_language_server.Base.Text.{Bytes, codes, find}
use move_language_server.Compiler.SourceMap.{FileOffsetMap, insert_layer, len_difference}
use move_language_server.Compiler.SourceMap.Edits.{splice}

-- The templates of the loop, in its order.
abbrev pub tight_template : Bytes
tight_template = codes "{{sender}}"

abbrev pub spaced_template : Bytes
spaced_template = codes "{{ sender }}"

-- `while let Some(pos) = new_s.find(template)` on fuel; `none` means that the fuel ran out.
-- `replace_range` is the splice.
unfoldable pub replace_loop :
    ℕ → Bytes → Bytes → Bytes → FileOffsetMap → Option (Bytes × FileOffsetMap)
replace_loop zero template sender s m = none
replace_loop (suc fuel) template sender s m = elim (find template s) [
  | none ↦ some (s, m)
  | some pos ↦
      replace_loop fuel template sender (splice pos (length template) sender s)
        (insert_layer m (pos + length sender) (len_difference template sender))
]

-- `none` stands for the failed assertion `sender.len() > 12` and for fuel that ran out.
unfoldable pub replace_sender_placeholder :
    ℕ → Bytes → Bytes → FileOffsetMap → Option (Bytes × FileOffsetMap)
unfolding replace_loop
replace_sender_placeholder fuel s sender m = elim (ltb 12 (length sender)) [
  | false ↦ none
  | true ↦ do
    (s', m') ← replace_loop fuel tight_template sender s m
    replace_loop fuel spaced_template sender s' m'
]
