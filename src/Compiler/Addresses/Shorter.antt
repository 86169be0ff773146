-- ===== src/Compiler/Addresses/Shorter.antt =====
-- An address that is replaced by a shorter one.
use move_language_server.Base.{
  ℕ, ◌+◌, ◌<◌, ◌≡◌, refl, sym, ap, ◌∙◌, arith, false, [], ◌∷◌, ◌++◌, some, length, get_elem?,
  get_elem?-append_right, lt→ltb,
}
use move_language_server.Base.Text.{Bytes, codes, starts_with}
use move_language_server.Compiler.SourceMap.{
  FileOffsetMap, empty_map, translate, translate_pos, insert_address_layer,
}
use move_language_server.Compiler.SourceMap.Project.{replace_text}
use move_language_server.Compiler.Addresses.{
  Codecs, bech32_into_libra, replace_each, replace_bech32_addresses,
}

-- The layer stands at the end of the old text, so positions before it are left alone.
translate_pos-address_layer :
    (end p : ℕ) (old new : Bytes)
    → p < end
    → translate_pos (insert_address_layer empty_map end old new) p ≡ p
unfolding translate_pos translate insert_address_layer
translate_pos-address_layer end p old new h = rw (lt→ltb p end h) refl

get_elem?-behind :
    (before middle after : Bytes) (k i : ℕ)
    → length before + length middle + k ≡ i
    → get_elem? (before ++ (middle ++ after)) i ≡ get_elem? after k
get_elem?-behind before middle after k i e =
    get_elem?-append_right before (middle ++ after) i (length middle + k) (omega arith)
    ∙ get_elem?-append_right middle after (length middle + k) k refl

module _ (codecs : Codecs) where
  open codecs use {bech32_matches}

  one_match :
      (source orig new : Bytes) (end : ℕ)
      → bech32_matches source ≡ (end, orig) ∷ []
      → starts_with orig (codes "0x") ≡ false
      → bech32_into_libra codecs orig ≡ some new
      → replace_bech32_addresses codecs source empty_map
        ≡ (replace_text orig new source, insert_address_layer empty_map end orig new)
  unfolding replace_bech32_addresses
  one_match source orig new end m n c = rw (m, n, c, replace_each) refl

  -- In a source with one address, that is replaced by a shorter one, the map leaves the positions behind
  -- the new address where they are, as many as the new address is shorter by: the bytes there came
  -- from as many places further on in the source.
  pub replace_bech32_addresses-misplaces :
      (source before orig new after : Bytes) (k : ℕ)
      → source ≡ before ++ (orig ++ after)
      → bech32_matches source ≡ (length before + length orig, orig) ∷ []
      → starts_with orig (codes "0x") ≡ false
      → bech32_into_libra codecs orig ≡ some new
      → replace_text orig new source ≡ before ++ (new ++ after)
      → length new + k < length orig
      → let (s', m') = replace_bech32_addresses codecs source empty_map in
        let p = length before + length new + k in
        (translate_pos m' p ≡ p)
        × (get_elem? s' p ≡ get_elem? source (length before + length orig + k))
  replace_bech32_addresses-misplaces source before orig new after k e m n c r short =
      let p = length before + length new + k in
      let one = one_match source orig new (length before + length orig) m n c in
      (
        ap (λ (x : Bytes × FileOffsetMap). translate_pos x.1 p) one
            ∙ translate_pos-address_layer (length before + length orig) p orig new (omega arith),
        ap (λ (x : Bytes × FileOffsetMap). get_elem? x.0 p) one
            ∙ ap (λ x. get_elem? x p) r
            ∙ get_elem?-behind before new after k p refl
            ∙ sym (
                ap (λ x. get_elem? x (length before + length orig + k)) e
                ∙ get_elem?-behind before orig after k (length before + length orig + k) refl),
      )
