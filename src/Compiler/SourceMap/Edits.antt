-- ===== src/Compiler/SourceMap/Edits.antt =====
-- Edits of a text, the layers they record, and where the bytes of the edited text come from.
use Prim.Native.Nat.{suc}
use move_language_server.Base.{
  ℕ, zero, ◌+◌, ◌-◌, ◌≤◌, ◌<◌, ◌^◌, List, [], ◌∷◌, ◌++◌, Option, none, some, ◌≡◌, refl, ◌∙◌, arith,
  length, take, drop, replicate, get_elem?, length-append, length-take, length-drop,
  get_elem?-append_left, get_elem?-append_right, get_elem?-take, get_elem?-drop,
}
use move_language_server.Base.Int.{sub_ℕ}
use move_language_server.Base.Text.{Bytes}
use move_language_server.Compiler.SourceMap.{Layer}

-- The bytes from `at` to `at + cut` are replaced by `text`.
pub record Edit : Type 0 where
  pub at : ℕ
  pub cut : ℕ
  pub text : Bytes

abbrev pub splice {ℓ} : {A : Type ℓ} → ℕ → ℕ → List A → List A → List A
splice at cut new xs = take at xs ++ (new ++ drop (at + cut) xs)

unfoldable pub apply_edit : Edit → Bytes → Bytes
apply_edit e s = splice e.at e.cut e.text s

unfoldable pub apply_edits : List Edit → Bytes → Bytes
unfolding apply_edit
apply_edits [] s = s
apply_edits (e ∷ es) s = apply_edits es (apply_edit e s)

-- The layer of an edit: from the end of the new text on, positions are shifted by the difference.
unfoldable pub edit_layer : Edit → Layer
edit_layer e = record { pos = e.at + length e.text; offset = sub_ℕ e.cut (length e.text) }

-- Where each byte of the edited text comes from: `some p` for the byte at `p` of the first text,
-- `none` for a byte that an edit wrote.
abbrev pub Origins : Type 0
Origins = List (Option ℕ)

unfoldable pub origins_edit : Edit → Origins → Origins
origins_edit e o = splice e.at e.cut (replicate (length e.text) none) o

unfoldable pub origins : List Edit → Origins → Origins
unfolding origins_edit
origins [] o = o
origins (e ∷ es) o = origins es (origins_edit e o)

-- The text as it came: each byte is where it was.
unfoldable pub fresh : ℕ → ℕ → Origins
fresh from zero = []
fresh from (suc n) = some from ∷ fresh (from + 1) n

-- Each edit lies inside its text, and texts stay shorter than 2^63 bytes.
abbrev pub Fits : List Edit → ℕ → Type 0
Fits [] n = n < 2 ^ 63
Fits (e ∷ es) n = (e.at + e.cut ≤ n) × (n < 2 ^ 63) × Fits es (n - e.cut + length e.text)

-- What a splice holds, by position: before, inside and behind the new piece.
module _ {ℓ} {A : Type ℓ} (at cut : ℕ) (new xs : List A) (inside : at + cut ≤ length xs) where
  pub length-splice : length (splice at cut new xs) ≡ length xs - cut + length new
  length-splice = omega (
    arith,
    length-append (take at xs) (new ++ drop (at + cut) xs),
    length-append new (drop (at + cut) xs),
    length-take at xs,
    length-drop (at + cut) xs,
  )

  length-front : length (take at xs) ≡ at
  length-front = omega (arith, length-take at xs)

  pub splice_before : (q : ℕ) → q < at → get_elem? (splice at cut new xs) q ≡ get_elem? xs q
  splice_before q h =
      get_elem?-append_left (take at xs) _ q (omega (arith, length-front))
      ∙ get_elem?-take at xs q h

  pub splice_inside :
      (q : ℕ) → q < length new → get_elem? (splice at cut new xs) (at + q) ≡ get_elem? new q
  splice_inside q h =
      get_elem?-append_right (take at xs) _ (at + q) q (omega (arith, length-front))
      ∙ get_elem?-append_left new _ q h

  pub splice_behind :
      (q : ℕ) → get_elem? (splice at cut new xs) (at + length new + q) ≡ get_elem? xs (at + cut + q)
  splice_behind q =
      get_elem?-append_right (take at xs) _ (at + length new + q) (length new + q)
        (omega (arith, length-front))
      ∙ get_elem?-append_right new _ (length new + q) q refl
      ∙ get_elem?-drop (at + cut) xs q (at + cut + q) refl
