-- ===== src/Compiler/LineEndings/Laws.antt =====
-- The iterator against a plain description of what it does to a text.
use move_language_server.Base.{
  ℕ, zero, suc, ◌+◌, ◌-◌, ◌<◌, ◌≡◌, ◌≢◌, refl, sym, ap, ◌∙◌, arith, Bool, true, false, List, [],
  ◌∷◌, ◌++◌, some, ◌==◌, if◌then◌else◌, length, ◌&&◌, append_assoc, append-nil, Bool-cases, inl,
  inr, All,
}
use move_language_server.Base.Int.{pos}
use move_language_server.Compiler.SourceMap.{Layer, FileOffsetMap, insert_layer, empty_map}
use move_language_server.Compiler.LineEndings.{
  NewNormalized, collect, gather, next, inner_next, emit, normalize, lf, cr,
}

-- The text with every line break written as a line feed; `after_cr` says that the character
-- before was a carriage return.
unfoldable pub unix : Bool → List ℕ → List ℕ
unix after_cr [] = []
unix after_cr (c ∷ s) = elim (c == lf && after_cr) [
  | true ↦ unix false s
  | false ↦ (if c == cr then lf else c) ∷ unix (c == cr) s
]

-- A layer for each pair of the two, at the index of its carriage return. `i` is the index of the
-- first character.
unfoldable pub crlf_layers : Bool → ℕ → List ℕ → List Layer
crlf_layers after_cr i [] = []
crlf_layers after_cr i (c ∷ s) = elim (c == lf && after_cr) [
  | true ↦ record { pos = i - 1; offset = pos 1 } ∷ crlf_layers false (i + 1) s
  | false ↦ crlf_layers (c == cr) (i + 1) s
]

abbrev state : List ℕ → Bool → ℕ → FileOffsetMap → NewNormalized
state s after_cr i m = record {
  chars = s;
  prev_was_carriage_return = after_cr;
  pos = i;
  source_map = m;
}

abbrev with_layers : FileOffsetMap → List Layer → FileOffsetMap
with_layers m ls = record m { layers = m.layers ++ ls }

-- A character that is kept.
next_kept :
    (c : ℕ) (s : List ℕ) (after_cr : Bool) (i : ℕ) (m : FileOffsetMap)
    → c == lf && after_cr ≡ false
    → next (state (c ∷ s) after_cr i m)
      ≡ (some (if c == cr then lf else c), state s (c == cr) (i + 1) m)
unfolding next
next_kept c s a i m h = ground arith

emit-next_of :
    (s : List ℕ) (i : ℕ) (m : FileOffsetMap)
    → emit (inner_next (state s false i m)) ≡ next (state s false i m)
unfolding next
emit-next_of [] i m = refl
emit-next_of (c ∷ s) i m = ground arith

-- A line feed that is dropped: the iterator goes on as from the character behind it.
next_dropped :
    (c : ℕ) (s : List ℕ) (after_cr : Bool) (i : ℕ) (m : FileOffsetMap)
    → c == lf && after_cr ≡ true
    → next (state (c ∷ s) after_cr i m)
      ≡ next (state s false (i + 1) (insert_layer m (i - 1) (pos 1)))
unfolding next
next_dropped c s a i m h =
    let e : i + 1 - 2 ≡ i - 1 = omega arith in
    rw (h, e) (emit-next_of s (i + 1) (insert_layer m (i - 1) (pos 1)))

dropped_layer :
    (m : FileOffsetMap) (p : ℕ) (ls : List Layer) {s : List ℕ}
    → ◌≡◌ {A = List ℕ × FileOffsetMap}
        (s, with_layers (insert_layer m p (pos 1)) ls)
        (s, with_layers m (record { pos = p; offset = pos 1 } ∷ ls))
unfolding insert_layer
dropped_layer m p ls = rw append_assoc

gather_kept :
    (c fuel : ℕ) (n : NewNormalized)
    → gather (collect fuel) (some c, n) ≡ (c ∷ (collect fuel n).0, (collect fuel n).1)
unfolding gather
gather_kept c fuel n = refl

module _ (c : ℕ) (s : List ℕ) (after_cr : Bool) (i : ℕ) where
  pub dropped_lf :
      c == lf && after_cr ≡ true
      → (unix after_cr (c ∷ s) ≡ unix false s)
        × (crlf_layers after_cr i (c ∷ s)
            ≡ record { pos = i - 1; offset = pos 1 } ∷ crlf_layers false (i + 1) s)
  unfolding unix crlf_layers
  dropped_lf h = (rw (h, unix), rw (h, crlf_layers))

  pub kept_char :
      c == lf && after_cr ≡ false
      → (unix after_cr (c ∷ s) ≡ (if c == cr then lf else c) ∷ unix (c == cr) s)
        × (crlf_layers after_cr i (c ∷ s) ≡ crlf_layers (c == cr) (i + 1) s)
  unfolding unix crlf_layers
  kept_char h = (rw (h, unix), rw (h, crlf_layers))

collect_step :
    (fuel : ℕ) (n : NewNormalized) → collect (suc fuel) n ≡ gather (collect fuel) (next n)
unfolding collect
collect_step fuel n = refl

-- The run of the iterator from a state in the middle of the text.
collect-unix :
    (fuel : ℕ) (s : List ℕ) (after_cr : Bool) (i : ℕ) (m : FileOffsetMap)
    → length s < fuel
    → collect fuel (state s after_cr i m)
      ≡ (unix after_cr s, with_layers m (crlf_layers after_cr i s))
collect-unix zero s a i m h = elim h [ ]
collect-unix (suc fuel) [] a i m h = unfold collect unix crlf_layers in rw append-nil
collect-unix (suc fuel) (c ∷ s) a i m h = elim (Bool-cases (c == lf && a)) [
  | inl y ↦
      let (text, layers) = dropped_lf c s a i y in
      collect_step fuel (state (c ∷ s) a i m)
      ∙ ap (gather (collect fuel)) (next_dropped c s a i m y)
      ∙ sym (collect_step fuel (state s false (i + 1) (insert_layer m (i - 1) (pos 1))))
      ∙ collect-unix (suc fuel) s false (i + 1) (insert_layer m (i - 1) (pos 1)) (omega arith)
      ∙ rw (text, layers) (dropped_layer m (i - 1) (crlf_layers false (i + 1) s))
  | inr n ↦
      let (text, layers) = kept_char c s a i n in
      collect_step fuel (state (c ∷ s) a i m)
      ∙ ap (gather (collect fuel)) (next_kept c s a i m n)
      ∙ gather_kept (if c == cr then lf else c) fuel (state s (c == cr) (i + 1) m)
      ∙ ap (λ (r : List ℕ × FileOffsetMap). ((if c == cr then lf else c) ∷ r.0, r.1))
          (collect-unix fuel s (c == cr) (i + 1) m (omega arith))
      ∙ rw (text, layers) refl
]

-- `normalize` returns the text with every line break written as a line feed, and a map with one
-- layer, of offset 1, at the index of each carriage return that stands before a line feed, for
-- every text.
pub normalize-unix :
    (s : List ℕ)
    → normalize s
      ≡ (unix false s, record { layers = crlf_layers false 0 s; address_replacements = [] })
unfolding normalize
normalize-unix s = collect-unix (length s + 1) s false 0 empty_map (omega arith)

lengths :
    (a : Bool) (i : ℕ) (t : List ℕ) → length (unix a t) + length (crlf_layers a i t) ≡ length t
lengths a i [] = unfold unix crlf_layers in omega arith
lengths a i (c ∷ s) = elim (Bool-cases (c == lf && a)) [
  | inl y ↦ let (e, f) = dropped_lf c s a i y in rw (e, f) (omega (arith, lengths false (i + 1) s))
  | inr n ↦
      let (e, f) = kept_char c s a i n in rw (e, f) (omega (arith, lengths (c == cr) (i + 1) s))
]

-- The length of the normalised text and the number of layers add up to the length of the source.
normalize-length : (s : List ℕ) → length (normalize s).0 + length (normalize s).1.layers ≡ length s
normalize-length s = rw normalize-unix (lengths false 0 s)

-- The normalised text holds no carriage return.
pub unix-no_cr : (a : Bool) (s : List ℕ) → All (λ c. c ≢ cr) (unix a s)
unix-no_cr a [] = unfold unix in tt
unix-no_cr a (c ∷ s) = elim (Bool-cases (c == lf && a)) [
  | inl y ↦ rw (dropped_lf c s a 0 y).0 (unix-no_cr false s)
  | inr n ↦ rw (kept_char c s a 0 n).0 (ground arith, unix-no_cr (c == cr) s)
]

-- The normalised text of every source holds no carriage return.
normalize-no_cr : (s : List ℕ) → All (λ c. c ≢ cr) (normalize s).0
normalize-no_cr s = rw normalize-unix (unix-no_cr false s)
