-- ===== src/Compiler/Parser/Positions.antt =====
-- Positions through the whole of `normalize_source_text`, for the dialect of libra.
use mathlib.Core.List.{reverse, reverse-append}
use move_language_server.Base.{
  ℕ, ◌+◌, ◌*◌, ◌≤◌, ◌<◌, ◌^◌, ◌==◌, ◌&&◌, ◌≡◌, ◌≢◌, refl, sym, ap, ◌∙◌, arith, Bool, true, false,
  List, [], ◌∷◌, ◌++◌, Option, some, All, map, map-append, length, get_elem?,
}
use mathlib.Core.Path.{subst}
use move_language_server.Base.Find.{count}
use move_language_server.Base.Text.{Bytes}
use move_language_server.Base.Utf8.{encode}
use move_language_server.Compiler.SourceMap.{FileOffsetMap, empty_map, translate_pos}
use move_language_server.Compiler.SourceMap.Tracking.{
  length-fresh, length-origins_edit, length-apply_edit, through-append, translate_pos-origins,
}
use move_language_server.Compiler.SourceMap.Edits.{
  Edit, apply_edit, apply_edits, edit_layer, Fits, fresh, origins, origins_edit, Origins,
}
use move_language_server.Compiler.Addresses.{replace_libra_address}
use move_language_server.Compiler.Addresses.Positions.{
  address_layer, Grows, ReplacesFirst, turned, through-address_layers,
}
use move_language_server.Compiler.LineEndings.{cr, lf, normalize}
use move_language_server.Compiler.LineEndings.Laws.{kept_char, unix, crlf_layers, normalize-unix}
use move_language_server.Compiler.Sender.{replace_sender_placeholder}
use move_language_server.Compiler.Sender.Laws.{
  Replaces-Fits, Replaces-length, replace_sender_placeholder_returns, replaced, apply_edits-append,
}
use move_language_server.Compiler.Sender.Loop.{Replaces, brace}
use move_language_server.Compiler.Parser.{
  ReplaceAddresses, ProvidedAccountAddress, normalize_source_text,
}

and_false : (b : Bool) → (b && false) ≡ false
and_false true = refl
and_false false = refl

not_eq : (a b : ℕ) → a ≢ b → (a == b) ≡ false
not_eq a b h = ground arith

-- A text without carriage returns is normalised to itself, without layers.
unix-no_cr_id :
    (s : List ℕ) (i : ℕ) → All (λ c. c ≢ cr) s → (unix false s ≡ s) × (crlf_layers false i s ≡ [])
unix-no_cr_id [] i h = unfold unix crlf_layers in (refl, refl)
unix-no_cr_id (c ∷ s) i (h, hs) =
    let plain : (c == cr) ≡ false = not_eq c cr h in
    let (text, layers) = kept_char c s false i (and_false (c == lf)) in
    let (same, no_layers) = unix-no_cr_id s (i + 1) hs in
    (rw (text, plain, same) refl, rw (layers, plain, no_layers) refl)

normalize-id : (s : List ℕ) → All (λ c. c ≢ cr) s → normalize s ≡ (s, empty_map)
normalize-id s h = let (a, b) = unix-no_cr_id s 0 h in normalize-unix s ∙ rw (a, b) refl

origins-append :
    (es fs : List Edit) (o : Origins) → origins (es ++ fs) o ≡ origins fs (origins es o)
unfolding origins
origins-append [] fs o = refl
origins-append (e ∷ es) fs o = origins-append es fs (origins_edit e o)

Fits-append :
    (es fs : List Edit) (s : Bytes)
    → Fits es (length s)
    → Fits fs (length (apply_edits es s))
    → Fits (es ++ fs) (length s)
unfolding apply_edits
Fits-append [] fs s h k = k
Fits-append (e ∷ es) fs s (inside, short, rest) k = (
  inside,
  short,
  subst (Fits (es ++ fs)) (length-apply_edit e s inside) (
      Fits-append es fs (apply_edit e s) (subst (Fits es) (sym (length-apply_edit e s inside)) rest)
        k),
)

length-origins :
    (es : List Edit) (o : Origins) (s : Bytes)
    → length o ≡ length s
    → Fits es (length s)
    → length (origins es o) ≡ length (apply_edits es s)
unfolding origins apply_edits
length-origins [] o s e h = e
length-origins (e ∷ es) o s same (inside, short, rest) =
    length-origins es (origins_edit e o) (apply_edit e s)
      (omega (arith, length-origins_edit e o (omega arith), length-apply_edit e s inside))
      (subst (Fits es) (sym (length-apply_edit e s inside)) rest)

-- Edits with layers at their new ends, and behind them edits that grow with the layers of addresses.
mixed_layers-origins :
    (es fs : List Edit) (s : Bytes) (m : FileOffsetMap) (q p : ℕ)
    → m.layers ≡ map edit_layer es ++ map address_layer fs
    → Fits es (length s)
    → Fits fs (length (apply_edits es s))
    → Grows fs
    → get_elem? (origins (es ++ fs) (fresh 0 (length s))) q ≡ some (some p)
    → (translate_pos m q ≡ p) × (get_elem? (apply_edits fs (apply_edits es s)) q ≡ get_elem? s p)
mixed_layers-origins es fs s m q p recorded fits fits' grows h =
    let o = fresh 0 (length s) in
    let exact_map : FileOffsetMap = record {
      layers = map edit_layer (es ++ fs);
      address_replacements = [];
    } in
    let exact =
      translate_pos-origins (es ++ fs) s exact_map q p refl (Fits-append es fs s fits fits') h in
    (
      unfold translate_pos in
          rw
            (
              recorded,
              reverse-append (map edit_layer es) (map address_layer fs),
              through-append (reverse (map address_layer fs)) (reverse (map edit_layer es)) q,
              through-address_layers fs (origins es o) (length (apply_edits es s)) q p
                  (length-origins es o s (length-fresh (length s) 0) fits) fits' grows
                  (rw (origins-append es fs o) at h),
            )
            (rw
              (
                map-append edit_layer es fs,
                reverse-append (map edit_layer es) (map edit_layer fs),
                through-append (reverse (map edit_layer fs)) (reverse (map edit_layer es)) q,
              )
              at (exact.0)),
      ap (λ x. get_elem? x q) (sym (apply_edits-append es fs s)) ∙ exact.1,
    )

module _ (captures : Bytes → Option (ℕ × ℕ)) (account_text : Bytes → Bytes) (turns : ℕ) where
  -- The dialect of libra, with the turns of its loop.
  abbrev pub libra : ReplaceAddresses
  libra = replace_libra_address captures account_text turns

  normalized :
      (fuel : ℕ) (s : List ℕ) (sender : ProvidedAccountAddress) (r : Bytes × FileOffsetMap)
      → All (λ c. c ≢ cr) s
      → replace_sender_placeholder fuel (encode s) sender.normalized_original empty_map ≡ some r
      → normalize_source_text libra fuel s (some sender) ≡ some (libra r.0 r.1)
  unfolding normalize_source_text
  normalized fuel s sender r h e = rw (normalize-id s h, e) refl

  -- A source without carriage returns is normalised for the dialect of libra, with fuel for its braces
  -- and after any number of turns of the loop over addresses: the result comes from the source by
  -- writing the sender over placeholders and then addresses in full over first matches, and the
  -- map takes the position of every byte that was not written so to its position in the source,
  -- where the same byte stands. The sender has more than twelve bytes and no brace, a match lies
  -- in its text and has at most 34 bytes, an address has 32 digits, and the texts stay below 2^63
  -- bytes. The source is given by its characters, and positions are those of their bytes.
  pub normalize_source_text-origins :
      ((s : Bytes) (start len : ℕ)
        → captures s ≡ some (start, len)
        → (start + len ≤ length s) × (len ≤ 34))
      → ((orig : Bytes) → length (account_text orig) ≡ 32)
      → (fuel : ℕ) (text : List ℕ) (sender : ProvidedAccountAddress) → All (λ c. c ≢ cr) text
      → 12 < length sender.normalized_original
      → count brace sender.normalized_original ≡ 0
      → count brace (encode text) < fuel
      → length (encode text)
          + count brace (encode text) * length sender.normalized_original
          + 42 * turns
        < 2 ^ 63
      → (s' : Bytes) × (m' : FileOffsetMap) × (normalize_source_text libra fuel text (some sender)
          ≡ some (s', m'))
        × ((es fs : List Edit) × Replaces sender.normalized_original (encode text) es
            × ReplacesFirst captures account_text (apply_edits es (encode text)) fs
            × (s' ≡ apply_edits fs (apply_edits es (encode text)))
            × ((q p : ℕ)
                → get_elem? (origins (es ++ fs) (fresh 0 (length (encode text)))) q ≡ some (some p)
                → (translate_pos m' q ≡ p) × (get_elem? s' q ≡ get_elem? (encode text) p)))
  normalize_source_text-origins inside digits fuel chars sender no_cr long free enough small =
      let s = encode chars in
      let name = sender.normalized_original in
      let ((s1, m1), run, _) =
        replace_sender_placeholder_returns fuel s name empty_map long free enough in
      let (es, (r, text, layers)) = replaced fuel s name s1 empty_map m1 long run in
      let grown : length s1 ≤ length s + count brace s * length name =
        rw text (Replaces-length name free es s r) in
      let (fs, t) = turned captures account_text inside digits turns s1 m1 (omega arith) in
      let recorded : (libra s1 m1).1.layers ≡ map edit_layer es ++ map address_layer fs =
        t.recorded ∙ ap (λ l. l ++ map address_layer fs) layers in
      let fits = Replaces-Fits name free es s (omega arith) r in
      let fits' : Fits fs (length (apply_edits es s)) =
        subst (λ x. Fits fs (length x)) text t.fits in
      let edited : (libra s1 m1).0 ≡ apply_edits fs (apply_edits es s) =
        t.edited ∙ ap (apply_edits fs) text in
      (
        (libra s1 m1).0,
        (libra s1 m1).1,
        normalized fuel chars sender (s1, m1) no_cr run,
        (
          es,
          fs,
          r,
          rw (← text) t.replaces,
          edited,
          λ q p h.
              let (back, byte) =
                mixed_layers-origins es fs s (libra s1 m1).1 q p recorded fits fits' t.grows h in
              (back, ap (λ x. get_elem? x q) edited ∙ byte),
        ),
      )
