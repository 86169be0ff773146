-- ===== src/Compiler/Sender/Laws.antt =====
-- The placeholder loop ends, leaves no placeholder behind, and records each replacement as a layer.
use move_language_server.Base.{
  ℕ, ◌+◌, ◌-◌, ◌*◌, ◌^◌, ◌≤◌, ◌<◌, List, [], ◌∷◌, ◌++◌, map, none, some, length, take, drop, ◌≡◌,
  refl, sym, ap, ◌∙◌, inl, inr, arith, append_assoc, map-append, Option-cases, length-append,
  length-take, length-drop, lt→ltb, get_elem?,
}
use mathlib.Core.Path.{subst}
use move_language_server.Base.Text.{Bytes, find}
use move_language_server.Base.Find.{count}
use move_language_server.Compiler.SourceMap.{FileOffsetMap, empty_map, translate_pos}
use move_language_server.Compiler.SourceMap.Tracking.{translate_pos-origins}
use move_language_server.Compiler.SourceMap.Edits.{
  length-splice, Edit, apply_edit, apply_edits, edit_layer, Fits, fresh, origins,
}
use move_language_server.Compiler.Sender.{
  replace_loop, replace_sender_placeholder, tight_template, spaced_template,
}
use move_language_server.Compiler.Sender.Loop.{
  Done, IsPlaceholder, Replaces, brace, braces-splice, loop-Done, loop_ends,
}

pub apply_edits-append :
    (es fs : List Edit) (s : Bytes) → apply_edits (es ++ fs) s ≡ apply_edits fs (apply_edits es s)
unfolding apply_edits
apply_edits-append [] fs s = refl
apply_edits-append (e ∷ es) fs s = apply_edits-append es fs (apply_edit e s)

Replaces-append :
    (sender : Bytes) (es fs : List Edit) (s : Bytes)
    → Replaces sender s es
    → Replaces sender (apply_edits es s) fs
    → Replaces sender s (es ++ fs)
unfolding apply_edits
Replaces-append sender [] fs s a b = b
Replaces-append sender (e ∷ es) fs s (t, is, cut, len, text, a) b =
    (t, is, cut, len, text, Replaces-append sender es fs (apply_edit e s) a b)

placeholder_braces : (t : Bytes) → IsPlaceholder t → (count brace t ≡ 2) × (0 < length t)
unfolding count
placeholder_braces t (inl e) = rw e (refl, omega arith)
placeholder_braces t (inr e) = rw e (refl, omega arith)

-- A placeholder that stands in a text lies inside it.
placeholder_inside :
    (t s : Bytes) (i : ℕ)
    → 0 < length t
    → s ≡ take i s ++ (t ++ drop (i + length t) s)
    → i + length t ≤ length s
placeholder_inside t s i pos e = omega (
  arith,
  ap length e,
  length-append (take i s) (t ++ drop (i + length t) s),
  length-append t (drop (i + length t) s),
  length-take i s,
  length-drop (i + length t) s,
)

length-edited :
    (e : Edit) (s : Bytes)
    → e.at + e.cut ≤ length s
    → length (apply_edit e s) ≡ length s - e.cut + length e.text
unfolding apply_edit
length-edited e s inside = length-splice e.at e.cut e.text s inside

-- One replacement: where it lies, and how the length and the braces change.
edited :
    (sender : Bytes)
    → count brace sender ≡ 0
    → (e : Edit) (s t : Bytes) → IsPlaceholder t
    → s ≡ take e.at s ++ (t ++ drop (e.at + e.cut) s)
    → e.cut ≡ length t
    → e.text ≡ sender
    → (e.at + e.cut ≤ length s)
      × (length (apply_edit e s) ≡ length s - e.cut + length e.text)
      × (length e.text ≡ length sender)
      × (count brace (apply_edit e s) + 2 ≡ count brace s)
edited sender free e s t is at_e len text =
    let (braces, pos) = placeholder_braces t is in
    let inside : e.at + e.cut ≤ length s =
      rw len (placeholder_inside t s e.at pos (rw len at at_e)) in
    (
      inside,
      length-edited e s inside,
      ap length text,
      unfold apply_edit in
          rw text (omega (arith, braces-splice t sender free s e.at (e.at + e.cut) at_e)),
    )

-- The replacements fit, if the text with the sender for each brace would.
pub Replaces-Fits :
    (sender : Bytes)
    → count brace sender ≡ 0
    → (es : List Edit) (s : Bytes) → length s + count brace s * length sender < 2 ^ 63
    → Replaces sender s es
    → Fits es (length s)
Replaces-Fits sender free [] s small r = omega arith
Replaces-Fits sender free (e ∷ es) s small (t, is, at_e, len, text, rest) =
    let (inside, long, sized, fewer) = edited sender free e s t is at_e len text in
    (
      inside,
      omega arith,
      rw (← long) (
          Replaces-Fits sender free es (apply_edit e s)
            (omega (arith, ap (λ (k : ℕ). k * length sender) fewer)) rest),
    )

-- Replacements never make a text longer than that.
pub Replaces-length :
    (sender : Bytes)
    → count brace sender ≡ 0
    → (es : List Edit) (s : Bytes) → Replaces sender s es
    → length (apply_edits es s) ≤ length s + count brace s * length sender
unfolding apply_edits
Replaces-length sender free [] s r = omega arith
Replaces-length sender free (e ∷ es) s (t, is, at_e, len, text, rest) =
    let (inside, long, sized, fewer) = edited sender free e s t is at_e len text in
    omega (
      arith,
      ap (λ (k : ℕ). k * length sender) fewer,
      Replaces-length sender free es (apply_edit e s) rest,
    )

-- Behind its assertion the function is the two loops.
two_loops :
    (fuel : ℕ) (s sender s1 : Bytes) (m m1 : FileOffsetMap)
    → 12 < length sender
    → replace_loop fuel tight_template sender s m ≡ some (s1, m1)
    → replace_sender_placeholder fuel s sender m ≡ replace_loop fuel spaced_template sender s1 m1
unfolding replace_sender_placeholder
two_loops fuel s sender s1 m m1 long run = rw (lt→ltb _ _ long, replace_sender_placeholder) (rw run)

-- With more fuel than the text has braces, and a sender of more than twelve bytes and no brace,
-- the replacement returns, and leaves no spaced placeholder.
pub replace_sender_placeholder_returns :
    (fuel : ℕ) (s sender : Bytes) (m : FileOffsetMap)
    → 12 < length sender
    → count brace sender ≡ 0
    → count brace s < fuel
    → (r : Bytes × FileOffsetMap) × (replace_sender_placeholder fuel s sender m ≡ some r)
      × (find spaced_template r.0 ≡ none)
replace_sender_placeholder_returns fuel s sender m long free enough =
    let two = λ (t : Bytes) (is : IsPlaceholder t). placeholder_braces t is in
    let ((s1, m1), run, fewer) =
      loop_ends tight_template sender free (omega (arith, two tight_template (inl refl))) fuel s m
        enough in
    let ((s2, m2), run', _) =
      loop_ends spaced_template sender free (omega (arith, two spaced_template (inr refl))) fuel s1
        m1 (omega arith) in
    (
      (s2, m2),
      two_loops fuel s sender s1 m m1 long run ∙ run',
      (loop-Done spaced_template sender (inr refl) fuel s1 m1 s2 m2 run').2,
    )

-- Every run that returns is a row of replacements of placeholders by the sender.
pub replaced :
    (fuel : ℕ) (s sender s' : Bytes) (m m' : FileOffsetMap)
    → 12 < length sender
    → replace_sender_placeholder fuel s sender m ≡ some (s', m')
    → (es : List Edit) × Done sender s m s' m' es
replaced fuel s sender s' m m' long h =
    elim (Option-cases (replace_loop fuel tight_template sender s m)) [
      | inl e ↦ absurd (unfold replace_sender_placeholder in ground (arith, h, e))
      | inr ((s1, m1), e) ↦
          let (es, (r, text, layers), _) =
            loop-Done tight_template sender (inl refl) fuel s m s1 m1 e in
          let (fs, (r', text', layers'), _) =
            loop-Done spaced_template sender (inr refl) fuel s1 m1 s' m'
              (sym (two_loops fuel s sender s1 m m1 long e) ∙ h) in
          (
            es ++ fs,
            (
              Replaces-append sender es fs s r (subst (λ x. Replaces sender x fs) text r'),
              text' ∙ ap (apply_edits fs) text ∙ sym (apply_edits-append es fs s),
              layers'
                  ∙ ap (λ l. l ++ map edit_layer fs) layers
                  ∙ append_assoc m.layers (map edit_layer es) (map edit_layer fs)
                  ∙ ap (λ l. m.layers ++ l) (sym (map-append edit_layer es fs)),
            ),
          )
    ]

-- From an empty map, the text that is returned comes from the source by writing the sender over
-- placeholders, and the map takes the position of every byte that was not written by one of
-- these replacements to its position in the source, where the same byte stands. The sender has no
-- brace, and the texts stay below 2^63 bytes.
sender_positions :
    (fuel : ℕ) (s sender s' : Bytes) (m' : FileOffsetMap)
    → 12 < length sender
    → count brace sender ≡ 0
    → length s + count brace s * length sender < 2 ^ 63
    → replace_sender_placeholder fuel s sender empty_map ≡ some (s', m')
    → (es : List Edit) × Replaces sender s es
      × (s' ≡ apply_edits es s)
      × ((q p : ℕ)
          → get_elem? (origins es (fresh 0 (length s))) q ≡ some (some p)
          → (translate_pos m' q ≡ p) × (get_elem? s' q ≡ get_elem? s p))
sender_positions fuel s sender s' m' long free small h =
    let (es, (r, text, layers)) = replaced fuel s sender s' empty_map m' long h in
    (
      es,
      r,
      text,
      λ q p found.
          rw text (
            translate_pos-origins es s m' q p layers (Replaces-Fits sender free es s small r)
              found),
    )
