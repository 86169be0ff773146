-- ===== src/Compiler/SourceMap/Tracking.antt =====
-- What the layers are for: a text is edited piece by piece, each edit records a layer, and the
-- layers lead every byte that no edit has written back to the place it came from.
use Prim.Native.Nat.{suc}
use mathlib.Core.List.{reverse, reverse-append}
use move_language_server.Base.{
  ℕ, zero, ◌+◌, ◌-◌, ◌≤◌, ◌<◌, ◌^◌, List, [], ◌∷◌, ◌++◌, map, Option, none, some, ◌≡◌, ◌≢◌, refl,
  ap, sym, ◌∙◌, arith, length, replicate, get_elem?, length-replicate, lt→ltb, le→ltb,
}
use native.Mathlib.Decide.{dec_lt}
use move_language_server.Base.Int.{usize_mod, as_usize-add}
use move_language_server.Base.Text.{Bytes}
use move_language_server.Compiler.SourceMap.{
  Layer, FileOffsetMap, translate, through, translate_pos,
}
use move_language_server.Compiler.SourceMap.Edits.{
  Edit, Fits, Origins, apply_edit, apply_edits, edit_layer, fresh, length-splice, origins,
  origins_edit, splice_before, splice_behind, splice_inside,
}

get_elem?-replicate :
    {A : Type 0} (n : ℕ) (a : A) (q : ℕ) → q < n → get_elem? (replicate n a) q ≡ some a
get_elem?-replicate zero a q h = elim h [ ]
get_elem?-replicate (suc n) a zero h = refl
get_elem?-replicate (suc n) a (suc q) h = get_elem?-replicate n a q (omega arith)

-- A layer leaves the positions before it alone and shifts the others.
translate_before : (e : Edit) (q : ℕ) → q < e.at + length e.text → translate (edit_layer e) q ≡ q
unfolding edit_layer translate
translate_before e q h = rw (lt→ltb _ _ h)

translate_behind :
    (e : Edit) (q : ℕ)
    → e.at + e.cut + q < usize_mod
    → translate (edit_layer e) (e.at + length e.text + q) ≡ e.at + e.cut + q
unfolding edit_layer translate
translate_behind e q h =
    rw (le→ltb (e.at + length e.text + q) (e.at + length e.text) (omega arith)) (
      omega (
        arith,
        as_usize-add (e.at + length e.text + q) e.cut (length e.text) (omega arith) (omega arith),
      ))

-- A byte that an edit wrote has no origin.
pub no_origin :
    (e : Edit) (o : Origins) (q p : ℕ)
    → e.at + e.cut ≤ length o
    → q < length e.text
    → get_elem? (origins_edit e o) (e.at + q) ≢ some (some p)
unfolding origins_edit
no_origin e o q p inside h found = cc (
  splice_inside e.at e.cut (replicate (length e.text) none) o inside q
      (omega (arith, length-replicate {0} {A = Option ℕ} (length e.text) none)),
  get_elem?-replicate {A = Option ℕ} (length e.text) none q h,
  found,
)

behind_text :
    (e : Edit) (o : Origins) (q : ℕ)
    → e.at + e.cut ≤ length o
    → get_elem? (origins_edit e o) (e.at + length e.text + q) ≡ get_elem? o (e.at + e.cut + q)
unfolding origins_edit
behind_text e o q inside =
    rw length-replicate at (splice_behind e.at e.cut (replicate (length e.text) none) o inside q)

before_text :
    (e : Edit) (o : Origins) (q : ℕ)
    → e.at + e.cut ≤ length o
    → q < e.at
    → get_elem? (origins_edit e o) q ≡ get_elem? o q
unfolding origins_edit
before_text e o q inside h = splice_before e.at e.cut (replicate (length e.text) none) o inside q h

pub some_below {ℓ} :
    {A : Type ℓ} (xs : List A) (i : ℕ) (a : A) → get_elem? xs i ≡ some a → i < length xs
some_below [] i a h = cc
some_below (x ∷ xs) zero a h = omega arith
some_below (x ∷ xs) (suc i) a h = omega (arith, some_below xs i a h)

-- One layer undoes one edit.
translate-edit_layer :
    (e : Edit) (o : Origins) (q p : ℕ)
    → e.at + e.cut ≤ length o
    → length o < 2 ^ 63
    → get_elem? (origins_edit e o) q ≡ some (some p)
    → get_elem? o (translate (edit_layer e) q) ≡ some (some p)
translate-edit_layer e o q p inside short h = elim (dec_lt q e.at) [
  | yes before ↦ rw (translate_before e q (omega arith)) (sym (before_text e o q inside before) ∙ h)
  | no behind ↦ elim (dec_lt q (e.at + length e.text)) [
    | yes in_text ↦
        absurd (no_origin e o (q - e.at) p inside (omega arith) (rw (within behind) at h))
    | no after ↦
        let k = q - (e.at + length e.text) in
        let split : q ≡ e.at + length e.text + k = omega arith in
        let found : get_elem? o (e.at + e.cut + k) ≡ some (some p) =
          sym (behind_text e o k inside) ∙ (rw split at h) in
        rw split (rw (translate_behind e k (omega (arith, some_below o _ _ found))) found)
  ]
]
  where
    within : ¬ (q < e.at) → q ≡ e.at + (q - e.at)
    within behind = omega arith

pub length-origins_edit :
    (e : Edit) (o : Origins)
    → e.at + e.cut ≤ length o
    → length (origins_edit e o) ≡ length o - e.cut + length e.text
unfolding origins_edit
length-origins_edit e o inside = omega (
  arith,
  length-splice e.at e.cut (replicate (length e.text) none) o inside,
  length-replicate {0} {A = Option ℕ} (length e.text) none,
)

pub through-append : (xs ys : List Layer) (q : ℕ) → through (xs ++ ys) q ≡ through ys (through xs q)
unfolding through
through-append [] ys q = refl
through-append (x ∷ xs) ys q = through-append xs ys (translate x q)

pub through-last :
    (xs : List Layer) (l : Layer) (q : ℕ) → through (xs ++ l ∷ []) q ≡ translate l (through xs q)
unfolding through
through-last [] l q = refl
through-last (x ∷ xs) l q = through-last xs l (translate x q)

-- All layers, from the last to the first, undo all edits.
pub through-edit_layers :
    (es : List Edit) (o : Origins) (n q p : ℕ)
    → length o ≡ n
    → Fits es n
    → get_elem? (origins es o) q ≡ some (some p)
    → get_elem? o (through (reverse (map edit_layer es)) q) ≡ some (some p)
unfolding origins
through-edit_layers [] o n q p e fits h = rw (← h) (unfold through in refl)
through-edit_layers (e ∷ es) o n q p len (inside, short, rest) h =
    let within : e.at + e.cut ≤ length o = omega arith in
    rw (reverse-append (edit_layer e ∷ []) (map edit_layer es), through-last)
      (translate-edit_layer e o (through (reverse (map edit_layer es)) q) p within (omega arith) (
        through-edit_layers es (origins_edit e o) (n - e.cut + length e.text) q p
          (omega (arith, length-origins_edit e o within)) rest h))

get_elem?-fresh : (n from q p : ℕ) → get_elem? (fresh from n) q ≡ some (some p) → from + q ≡ p
unfolding fresh
get_elem?-fresh zero from q p h = cc
get_elem?-fresh (suc n) from zero p h = ground arith
get_elem?-fresh (suc n) from (suc q) p h = omega (arith, get_elem?-fresh n (from + 1) q p h)

pub length-fresh : (n from : ℕ) → length (fresh from n) ≡ n
unfolding fresh
length-fresh zero from = refl
length-fresh (suc n) from = ap suc (length-fresh n (from + 1))

-- The byte behind a position with an origin is the one that the layer leads to.
text-edit_layer :
    (e : Edit) (o : Origins) (s : Bytes) (q p : ℕ)
    → length o ≡ length s
    → e.at + e.cut ≤ length o
    → length o < 2 ^ 63
    → get_elem? (origins_edit e o) q ≡ some (some p)
    → get_elem? (apply_edit e s) q ≡ get_elem? s (translate (edit_layer e) q)
unfolding apply_edit
text-edit_layer e o s q p same inside short h = elim (dec_lt q e.at) [
  | yes before ↦
      rw (translate_before e q (omega arith)) (splice_before _ _ e.text s (omega arith) q before)
  | no behind ↦ elim (dec_lt q (e.at + length e.text)) [
    | yes in_text ↦
        let split : q ≡ e.at + (q - e.at) = omega arith in
        absurd (no_origin e o (q - e.at) p inside (omega arith) (rw split at h))
    | no after ↦
        let k = q - (e.at + length e.text) in
        let split : q ≡ e.at + length e.text + k = omega arith in
        let found : get_elem? o (e.at + e.cut + k) ≡ some (some p) =
          sym (behind_text e o k inside) ∙ (rw split at h) in
        rw split (
          rw (translate_behind e k (omega (arith, some_below o _ _ found)))
            (splice_behind e.at e.cut e.text s (omega arith) k))
  ]
]

pub length-apply_edit :
    (e : Edit) (s : Bytes)
    → e.at + e.cut ≤ length s
    → length (apply_edit e s) ≡ length s - e.cut + length e.text
unfolding apply_edit
length-apply_edit e s inside = length-splice e.at e.cut e.text s inside

pub text-edit_layers :
    (es : List Edit) (o : Origins) (s : Bytes) (n q p : ℕ)
    → length o ≡ n
    → length s ≡ n
    → Fits es n
    → get_elem? (origins es o) q ≡ some (some p)
    → get_elem? (apply_edits es s) q ≡ get_elem? s (through (reverse (map edit_layer es)) q)
unfolding origins apply_edits
text-edit_layers [] o s n q p e e' fits h = unfold through in refl
text-edit_layers (e ∷ es) o s n q p len len' (inside, short, rest) h =
    let within : e.at + e.cut ≤ length o = omega arith in
    let n' = n - e.cut + length e.text in
    let before =
      through-edit_layers es (origins_edit e o) n' q p
        (omega (arith, length-origins_edit e o within)) rest h in
    rw (reverse-append (edit_layer e ∷ []) (map edit_layer es), through-last)
      (text-edit_layers es (origins_edit e o) (apply_edit e s) n' q p
          (omega (arith, length-origins_edit e o within))
          (omega (arith, length-apply_edit e s (omega arith))) rest h
        ∙ text-edit_layer e o s _ p (omega arith) within (omega arith) before)

-- When a text is edited by `es` and the layers of those edits are recorded in order,
-- `translate_pos` takes the position of every byte that came from the first text to the place
-- where it stood there, and the two texts hold the same byte at the two places. The edits lie
-- inside their texts, which stay below 2^63 bytes.
pub translate_pos-origins :
    (es : List Edit) (s : Bytes) (m : FileOffsetMap) (q p : ℕ)
    → m.layers ≡ map edit_layer es
    → Fits es (length s)
    → get_elem? (origins es (fresh 0 (length s))) q ≡ some (some p)
    → (translate_pos m q ≡ p) × (get_elem? (apply_edits es s) q ≡ get_elem? s p)
unfolding translate_pos
translate_pos-origins es s m q p recorded fits h =
    let o = fresh 0 (length s) in
    let back : through (reverse (map edit_layer es)) q ≡ p = omega (
      arith,
      get_elem?-fresh (length s) 0 (through (reverse (map edit_layer es)) q) p
          (through-edit_layers es o (length s) q p (length-fresh (length s) 0) fits h),
    ) in
    (
      rw recorded back,
      text-edit_layers es o s (length s) q p (length-fresh (length s) 0) refl fits h
          ∙ ap (get_elem? s) back,
    )
