-- ===== src/Compiler/Sender/Loop.antt =====
-- The loop over one placeholder: that it ends, and what a run of it has done.
use move_language_server.Base.{
  ℕ, zero, suc, ◌+◌, ◌≤◌, ◌<◌, List, [], ◌∷◌, ◌++◌, map, none, some, length, take, drop, ◌≡◌, refl,
  sym, ap, ◌∙◌, ◌⊎◌, inl, inr, arith, append_assoc, append-nil, Option-cases,
}
use move_language_server.Base.Text.{Bytes, find}
use move_language_server.Base.Find.{find-split, count, count-append}
use move_language_server.Compiler.SourceMap.{FileOffsetMap, insert_layer, len_difference}
use move_language_server.Compiler.SourceMap.Edits.{
  splice, Edit, apply_edit, apply_edits, edit_layer,
}
use move_language_server.Compiler.Sender.{replace_loop, tight_template, spaced_template}

abbrev pub brace : ℕ
brace = b'{'

-- Each edit writes the sender over a placeholder that stands in the text at that time.
abbrev pub IsPlaceholder : Bytes → Type 0
IsPlaceholder t = (t ≡ tight_template) ⊎ (t ≡ spaced_template)

abbrev pub Replaces : Bytes → Bytes → List Edit → Type 0
Replaces sender s [] = Unit
Replaces sender s (e ∷ es) =
    (template : Bytes) × IsPlaceholder template
    × (s ≡ take e.at s ++ (template ++ drop (e.at + e.cut) s))
    × (e.cut ≡ length template)
    × (e.text ≡ sender)
    × Replaces sender (apply_edit e s) es

module _ (template sender : Bytes) (free : count brace sender ≡ 0) where
  -- The braces of the text after one replacement.
  pub braces-splice :
      (s : Bytes) (i j : ℕ)
      → s ≡ take i s ++ (template ++ drop j s)
      → count brace (take i s ++ (sender ++ drop j s)) + count brace template ≡ count brace s
  braces-splice s i j e = omega (
    arith,
    ap (count brace) e,
    count-append brace (take i s) (template ++ drop j s),
    count-append brace template (drop j s),
    count-append brace (take i s) (sender ++ drop j s),
    count-append brace sender (drop j s),
  )

  -- With more fuel than braces the loop ends.
  pub loop_ends :
      0 < count brace template
      → (fuel : ℕ) (s : Bytes) (m : FileOffsetMap) → count brace s < fuel
      → (r : Bytes × FileOffsetMap) × (replace_loop fuel template sender s m ≡ some r)
        × (count brace r.0 ≤ count brace s)
  unfolding replace_loop
  loop_ends some_brace zero s m h = elim h [ ]
  loop_ends some_brace (suc fuel) s m h = elim (Option-cases (find template s)) [
    | inl e ↦ ((s, m), rw (e, replace_loop) refl, omega arith)
    | inr (i, e) ↦
        let less = braces-splice s i (i + length template) (find-split template s i _ refl e) in
        let (r, run, fewer) =
          loop_ends some_brace fuel (splice i (length template) sender s)
            (insert_layer m (i + length sender) (len_difference template sender)) (omega arith) in
        (r, rw (e, replace_loop) run, omega arith)
  ]

-- What a run of the loop has done.
abbrev pub Done : Bytes → Bytes → FileOffsetMap → Bytes → FileOffsetMap → List Edit → Type 0
Done sender s m s' m' es =
    Replaces sender s es × (s' ≡ apply_edits es s) × (m'.layers ≡ m.layers ++ map edit_layer es)

pub loop-Done :
    (template sender : Bytes)
    → IsPlaceholder template
    → (fuel : ℕ) (s : Bytes) (m : FileOffsetMap) (s' : Bytes) (m' : FileOffsetMap)
    → replace_loop fuel template sender s m ≡ some (s', m')
    → (es : List Edit) × Done sender s m s' m' es × (find template s' ≡ none)
unfolding replace_loop apply_edits edit_layer insert_layer
loop-Done template sender is zero s m s' m' h = cc
loop-Done template sender is (suc fuel) s m s' m' h = elim (Option-cases (find template s)) [
  | inl e ↦
      let h' : some (s, m) ≡ some (s', m') = rw (e, replace_loop) at h in
      let same : s ≡ s' = cc h' in
      let same_map : m ≡ m' = cc h' in
      (
        [],
        (
          tt,
          sym same,
          ap (λ (x : FileOffsetMap). x.layers) (sym same_map) ∙ sym (append-nil m.layers),
        ),
        rw same at e,
      )
  | inr (i, e) ↦
      let (es, (reps, text, layers), gone) =
        loop-Done template sender is fuel (splice i (length template) sender s)
          (insert_layer m (i + length sender) (len_difference template sender)) s' m'
          (rw (e, replace_loop) at h) in
      (
        record { at = i; cut = length template; text = sender } ∷ es,
        (
          (template, is, find-split template s i _ refl e, refl, refl, reps),
          text,
          layers ∙ append_assoc m.layers _ (map edit_layer es),
        ),
        gone,
      )
]
