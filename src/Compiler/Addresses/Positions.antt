-- ===== src/Compiler/Addresses/Positions.antt =====
-- The layers of addresses, which stand at the ends of the old texts and not of the new ones.
use mathlib.Core.Path.{subst}
use mathlib.Core.List.{reverse, reverse-append}
use move_language_server.Base.{
  ℕ, zero, suc, ◌+◌, ◌-◌, ◌*◌, ◌≤◌, ◌<◌, ◌^◌, ◌≡◌, refl, sym, ap, ◌∙◌, arith, List, [], ◌∷◌, ◌++◌,
  Option, none, some, map, length, take, drop, get_elem?, length-take, length-drop, append_assoc,
  append-nil, lt→ltb, le→ltb, Option-cases, inl, inr,
}
use native.Mathlib.Decide.{dec_lt}
use move_language_server.Base.Int.{sub_ℕ}
use move_language_server.Base.Text.{Bytes}
use move_language_server.Compiler.SourceMap.{
  Layer, FileOffsetMap, empty_map, translate, through, translate_pos, insert_address_layer,
}
use move_language_server.Compiler.SourceMap.Tracking.{
  length-fresh, no_origin, length-origins_edit, length-apply_edit, through-last,
  through-edit_layers, translate_pos-origins,
}
use move_language_server.Compiler.SourceMap.Edits.{
  Edit, apply_edit, apply_edits, edit_layer, Fits, fresh, origins, origins_edit, Origins,
}
use move_language_server.Compiler.Addresses.{repl_address, replace_libra_address}

-- The layer that `insert_address_layer` records of an edit.
unfoldable pub address_layer : Edit → Layer
address_layer e = record { pos = e.at + e.cut; offset = sub_ℕ e.cut (length e.text) }

abbrev pub Grows : List Edit → Type 0
Grows [] = Unit
Grows (e ∷ es) = (e.cut ≤ length e.text) × Grows es

-- For a byte with an origin the layer of a growing edit does what the layer at the new end does.
translate-address_layer :
    (e : Edit) (o : Origins) (q p : ℕ)
    → e.cut ≤ length e.text
    → e.at + e.cut ≤ length o
    → get_elem? (origins_edit e o) q ≡ some (some p)
    → translate (address_layer e) q ≡ translate (edit_layer e) q
unfolding translate address_layer edit_layer
translate-address_layer e o q p grows inside h = elim (dec_lt q e.at) [
  | yes before ↦
      rw (lt→ltb q (e.at + e.cut) (omega arith), lt→ltb q (e.at + length e.text) (omega arith)) refl
  | no behind ↦ elim (dec_lt q (e.at + length e.text)) [
    | yes in_text ↦
        let split : q ≡ e.at + (q - e.at) = omega arith in
        absurd (no_origin e o (q - e.at) p inside (omega arith) (rw split at h))
    | no after ↦
        rw (le→ltb q (e.at + e.cut) (omega arith), le→ltb q (e.at + length e.text) (omega arith))
          refl
  ]
]

pub through-address_layers :
    (es : List Edit) (o : Origins) (n q p : ℕ)
    → length o ≡ n
    → Fits es n
    → Grows es
    → get_elem? (origins es o) q ≡ some (some p)
    → through (reverse (map address_layer es)) q ≡ through (reverse (map edit_layer es)) q
unfolding origins
through-address_layers [] o n q p len fits grows h = refl
through-address_layers (e ∷ es) o n q p len (inside, short, rest) (grows, more) h =
    let within : e.at + e.cut ≤ length o = omega arith in
    let n' = n - e.cut + length e.text in
    let len' : length (origins_edit e o) ≡ n' = omega (arith, length-origins_edit e o within) in
    rw
      (
        reverse-append (address_layer e ∷ []) (map address_layer es),
        reverse-append (edit_layer e ∷ []) (map edit_layer es),
        through-last (reverse (map address_layer es)) (address_layer e) q,
        through-last (reverse (map edit_layer es)) (edit_layer e) q,
        through-address_layers es (origins_edit e o) n' q p len' rest more h,
      )
      (translate-address_layer e o _ p grows within
        (through-edit_layers es (origins_edit e o) n' q p len' rest h))

-- A text whose parts are replaced by texts that are as long or longer, with the layers of addresses.
address_layers-origins :
    (es : List Edit) (s : Bytes) (m : FileOffsetMap) (q p : ℕ)
    → m.layers ≡ map address_layer es
    → Fits es (length s)
    → Grows es
    → get_elem? (origins es (fresh 0 (length s))) q ≡ some (some p)
    → (translate_pos m q ≡ p) × (get_elem? (apply_edits es s) q ≡ get_elem? s p)
address_layers-origins es s m q p recorded fits grows h =
    let exact_map : FileOffsetMap = record {
      layers = map edit_layer es;
      address_replacements = [];
    } in
    let exact = translate_pos-origins es s exact_map q p refl fits h in
    (
      unfold translate_pos in
          rw recorded (
            through-address_layers es (fresh 0 (length s)) (length s) q p
              (length-fresh (length s) 0) fits grows h
            ∙ exact.0),
      exact.1,
    )

module _ (captures : Bytes → Option (ℕ × ℕ)) (account_text : Bytes → Bytes) where
  -- Each edit replaces the first match of its text, if there is one, by the address in full.
  abbrev pub ReplacesFirst : Bytes → List Edit → Type 0
  ReplacesFirst s [] = Unit
  ReplacesFirst s (e ∷ es) =
      (captures s ≡ some (e.at, e.cut))
      × (e.text ≡ repl_address captures account_text (take e.cut (drop e.at s)))
      × ReplacesFirst (apply_edit e s) es

  -- A match lies in its text and has at most 34 bytes, and an address has 32 digits.
  module _
      (inside : (s : Bytes) (start len : ℕ)
        → captures s ≡ some (start, len)
        → (start + len ≤ length s) × (len ≤ 34))
      (digits : (orig : Bytes) → length (account_text orig) ≡ 32) where
    -- The state after some turns, by the edits that they made.
    pub record Turned (s : Bytes) (m : FileOffsetMap) (r : Bytes × FileOffsetMap) (es : List Edit)
        : Type 0 where
      pub replaces : ReplacesFirst s es
      pub edited : r.0 ≡ apply_edits es s
      pub recorded : (r.1).layers ≡ m.layers ++ map address_layer es
      pub fits : Fits es (length s)
      pub grows : Grows es

    abbrev first_edit : Bytes → ℕ → ℕ → Edit
    first_edit s start len = record {
      at = start;
      cut = len;
      text = repl_address captures account_text (take len (drop start s));
    }

    abbrev with_layer : FileOffsetMap → Bytes → ℕ → ℕ → FileOffsetMap
    with_layer m s start len =
        insert_address_layer m (start + len) (take len (drop start s))
          (repl_address captures account_text (take len (drop start s)))

    turn-none :
        (turns : ℕ) (s : Bytes) (m : FileOffsetMap)
        → captures s ≡ none
        → replace_libra_address captures account_text (suc turns) s m ≡ (s, m)
    unfolding replace_libra_address
    turn-none turns s m e = rw (e, replace_libra_address) refl

    turn-some :
        (turns : ℕ) (s : Bytes) (m : FileOffsetMap) (start len : ℕ)
        → captures s ≡ some (start, len)
        → replace_libra_address captures account_text (suc turns) s m
          ≡ replace_libra_address captures account_text turns
              (apply_edit (first_edit s start len) s)
              (with_layer m s start len)
    unfolding replace_libra_address apply_edit
    turn-some turns s m start len e = rw (e, replace_libra_address) refl

    -- The old text of a match has the length of the match.
    with_layer-layers :
        (m : FileOffsetMap) (s : Bytes) (start len : ℕ)
        → start + len ≤ length s
        → (with_layer m s start len).layers
          ≡ m.layers ++ address_layer (first_edit s start len) ∷ []
    unfolding insert_address_layer address_layer
    with_layer-layers m s start len h =
        let old : length (take len (drop start s)) ≡ len =
          omega (arith, length-take len (drop start s), length-drop start s) in
        rw old refl

    Turned-cons :
        (s : Bytes) (m m' : FileOffsetMap) (r : Bytes × FileOffsetMap) (edit : Edit)
        (es : List Edit)
        → captures s ≡ some (edit.at, edit.cut)
        → edit.text ≡ repl_address captures account_text (take edit.cut (drop edit.at s))
        → edit.at + edit.cut ≤ length s
        → length s < 2 ^ 63
        → edit.cut ≤ length edit.text
        → m'.layers ≡ m.layers ++ address_layer edit ∷ []
        → Turned (apply_edit edit s) m' r es
        → Turned s m r (edit ∷ es)
    unfolding apply_edits
    Turned-cons s m m' r edit es e text within small grows layers rest = record {
      replaces = (e, text, rest.replaces);
      edited = rest.edited;
      recorded =
          rest.recorded
          ∙ ap (λ l. l ++ map address_layer es) layers
          ∙ append_assoc m.layers (address_layer edit ∷ []) (map address_layer es);
      fits = (within, small, subst (Fits es) (length-apply_edit edit s within) rest.fits);
      grows = (grows, rest.grows);
    }

    pub turned :
        (turns : ℕ) (s : Bytes) (m : FileOffsetMap)
        → length s + 42 * turns < 2 ^ 63
        → (es : List Edit) × Turned s m (replace_libra_address captures account_text turns s m) es
    turned zero s m small = (
      [],
      unfold replace_libra_address apply_edits in
          record {
            replaces = tt;
            edited = refl;
            recorded = sym (append-nil m.layers);
            fits = omega arith;
            grows = tt;
          },
    )
    turned (suc turns) s m small = elim (Option-cases (captures s)) [
      | inl e ↦ (
        [],
        rw (turn-none turns s m e) (record {
          replaces = tt;
          edited = unfold apply_edits in refl;
          recorded = sym (append-nil m.layers);
          fits = omega arith;
          grows = tt;
        }),
      )
      | inr ((start, len), e) ↦
          let edit = first_edit s start len in
          let (within, short) = inside s start len e in
          let wide : length edit.text ≡ 42 = omega (arith, digits (take len (drop start s))) in
          let next : length (apply_edit edit s) ≡ length s - len + 42 =
            length-apply_edit edit s within ∙ ap (λ n. length s - len + n) wide in
          let (es, rest) =
            turned turns (apply_edit edit s) (with_layer m s start len) (omega arith) in
          (
            edit ∷ es,
            rw (turn-some turns s m start len e) (
                Turned-cons s m (with_layer m s start len) _ edit es e refl within (omega arith)
                  (omega arith) (with_layer-layers m s start len within) rest),
          )
    ]

    -- After any number of turns of the loop over the addresses of a source, from an empty map, the text
    -- comes from the source by replacing first matches by addresses in full, and the map takes the
    -- position of every byte that was not written by one of these replacements to its position in
    -- the source, where the same byte stands. A match lies in its text and has at most 34 bytes,
    -- an address has 32 digits, and the texts stay below 2^63 bytes.
    replace_libra_address-origins :
        (turns : ℕ) (s : Bytes)
        → length s + 42 * turns < 2 ^ 63
        → let (s', m') = replace_libra_address captures account_text turns s empty_map in
          (es : List Edit) × ReplacesFirst s es
          × (s' ≡ apply_edits es s)
          × ((q p : ℕ)
              → get_elem? (origins es (fresh 0 (length s))) q ≡ some (some p)
              → (translate_pos m' q ≡ p) × (get_elem? s' q ≡ get_elem? s p))
    replace_libra_address-origins turns s small =
        let (es, t) = turned turns s empty_map small in
        (
          es,
          t.replaces,
          t.edited,
          λ q p h.
              let (back, same) = address_layers-origins es s _ q p t.recorded t.fits t.grows h in
              (back, ap (λ x. get_elem? x q) t.edited ∙ same),
        )
