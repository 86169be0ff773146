-- ===== src/Compat/Adapt/Tables.antt =====
-- The differences of a table of addresses, and what the mutator makes of them.
use move_language_server.Base.{
  ℕ, zero, suc, ◌+◌, ◌-◌, ◌*◌, ◌/◌, ◌%◌, ◌^◌, ◌≤◌, ◌<◌, ◌==◌, ==_iff, ◌≡◌, refl, sym, ap, ◌∙◌,
  arith, true, List, [], ◌∷◌, ◌++◌, some, All, length, take, drop, length-append, append_assoc,
  append-nil, take_all, drop_all,
}
use move_language_server.Base.Text.{Bytes}
use move_language_server.Compat.Mutator.{Diff, Mutator, new, make_diff, mutate}
use move_language_server.Compat.Mutator.Patch.{patched, Apart}
use move_language_server.Compat.Mutator.InPlace.{total, sort_of_Apart, drop-drop, mutate-patched}
use move_language_server.Compat.Adapt.{
  Reader, filler, u32_mod, fill_loop, handle_address_identifiers,
}

-- The bytes of a table of addresses, and of the table with four zeros before each address.
abbrev pub table_bytes : List Bytes → Bytes
table_bytes [] = []
table_bytes (addr ∷ addrs) = addr ++ table_bytes addrs

abbrev pub widened : List Bytes → Bytes
widened [] = []
widened (addr ∷ addrs) = filler ++ (addr ++ widened addrs)

abbrev pub IsAddress : Bytes → Type 0
IsAddress addr = length addr ≡ 16

abbrev fills : ℕ → ℕ → List Diff
fills zero index = []
fills (suc turns) index =
    record { start = index; end = index; value = filler } ∷ fills turns (index + 16)

fill_loop-fills :
    (turns index : ℕ) (mutator : Mutator)
    → fill_loop turns index mutator ≡ mutator ++ fills turns index
unfolding fill_loop make_diff
fill_loop-fills zero index mutator = sym (append-nil mutator)
fill_loop-fills (suc turns) index mutator =
    fill_loop-fills turns (index + 16) _ ∙ append_assoc mutator _ _

fills-Apart :
    (n at turns index : ℕ)
    → at ≤ index
    → index + 16 * turns < 2 ^ 63
    → Apart n at (fills turns index)
fills-Apart n at zero index h small = tt
fills-Apart n at (suc turns) index h small = (
  h,
  omega arith,
  omega arith,
  λ inside. omega arith,
  fills-Apart n index turns (index + 16) (omega arith) (omega arith),
)

total-fills : (turns index : ℕ) → total (fills turns index) ≡ 4 * turns
total-fills zero index = refl
total-fills (suc turns) index = omega (arith, total-fills turns (index + 16))

length-table_bytes :
    (addrs : List Bytes) → All IsAddress addrs → length (table_bytes addrs) ≡ 16 * length addrs
length-table_bytes [] h = refl
length-table_bytes (addr ∷ addrs) (h, hs) =
    omega (arith, length-append addr (table_bytes addrs), length-table_bytes addrs hs)

take_first : (addr rest : Bytes) (n : ℕ) → n ≡ length addr → take n (addr ++ rest) ≡ addr
take_first addr rest n e = rw e (take_all addr rest)

drop_first : (addr rest : Bytes) (n : ℕ) → n ≡ length addr → drop n (addr ++ rest) ≡ rest
drop_first addr rest n e = rw e (drop_all addr rest)

-- Behind the start of an address.
patched-address :
    (orig addr after : Bytes) (addrs : List Bytes) (at : ℕ)
    → IsAddress addr
    → All IsAddress addrs
    → drop at orig ≡ addr ++ (table_bytes addrs ++ after)
    → patched orig at (fills (length addrs) (at + 16)) ≡ addr ++ (widened addrs ++ after)
unfolding patched
patched-address orig addr after [] at h hs e = e
patched-address orig addr after (next ∷ addrs) at h (k, ks) e =
    let e' : drop at orig ≡ addr ++ (next ++ (table_bytes addrs ++ after)) =
      e ∙ ap (λ t. addr ++ t) (append_assoc next (table_bytes addrs) after) in
    let left : take (at + 16 - at) (drop at orig) ≡ addr =
      ap (take (at + 16 - at)) e' ∙ take_first addr _ (at + 16 - at) (omega arith) in
    let behind : drop (at + 16) orig ≡ next ++ (table_bytes addrs ++ after) =
      sym (drop-drop at 16 (at + 16) orig refl)
      ∙ ap (drop 16) e'
      ∙ drop_first addr _ 16 (omega arith) in
    let rest = patched-address orig next after addrs (at + 16) k ks behind in
    rw (left, rest)
      (ap (λ t. addr ++ (filler ++ t)) (sym (append_assoc next (widened addrs) after)))

patched-fills :
    (before after : Bytes) (addrs : List Bytes)
    → All IsAddress addrs
    → patched (before ++ (table_bytes addrs ++ after)) 0 (fills (length addrs) (length before))
      ≡ before ++ (widened addrs ++ after)
unfolding patched
patched-fills before after [] h = refl
patched-fills before after (addr ∷ addrs) (h, hs) =
    let orig = before ++ (table_bytes (addr ∷ addrs) ++ after) in
    rw
      (
        take_first before (table_bytes (addr ∷ addrs) ++ after) (length before - 0) (omega arith),
        patched-address orig addr after addrs (length before) h hs (
            drop_first before _ (length before) refl ∙ append_assoc addr (table_bytes addrs) after),
      )
      (ap (λ t. before ++ (filler ++ t)) (sym (append_assoc addr (widened addrs) after)))

length-widened :
    (addrs : List Bytes) → length (widened addrs) ≡ 4 * length addrs + length (table_bytes addrs)
length-widened [] = refl
length-widened (addr ∷ addrs) = omega (
  arith,
  length-append addr (widened addrs),
  length-append addr (table_bytes addrs),
  length-widened addrs,
)

grown : (k : ℕ) → 4 * k < 2 ^ 32 → k * (20 - 16) % u32_mod ≡ 4 * k
grown k small = omega arith

module _ (reader : Reader) where
  handled_lem :
      (k position len : ℕ)
      → len ≡ 16 * k
      → reader.dfin_addr_len ≡ 20
      → 4 * k < 2 ^ 32
      → handle_address_identifiers reader position len new ≡ (4 * k, fills k position)
  unfolding handle_address_identifiers
  handled_lem k position len e dfin small =
      let whole : (len % 16 == 0) ≡ true = (==_iff (len % 16) 0).1 (omega arith) in
      let turns : len / 16 ≡ k = omega arith in
      rw (whole, turns, dfin) (λ i. (grown k small i, fill_loop-fills k position [] i))

  -- A table of addresses of 16 bytes, anywhere in a file of less than 2^31 bytes: where addresses have
  -- 20 bytes, the table is said to grow by four bytes for each address, and the mutator with the
  -- differences of the table puts four zeros before each address and changes nothing else.
  pub address_table-widened :
      (before after : Bytes) (addrs : List Bytes)
      → All IsAddress addrs
      → length (before ++ (table_bytes addrs ++ after)) < 2 ^ 31
      → reader.dfin_addr_len ≡ 20
      → let (grown, mutator) =
          handle_address_identifiers reader (length before) (length (table_bytes addrs)) new in
        (grown ≡ length (widened addrs) - length (table_bytes addrs))
        × (mutate mutator (before ++ (table_bytes addrs ++ after))
            ≡ some (before ++ (widened addrs ++ after)))
  address_table-widened before after addrs h small dfin =
      let k = length addrs in
      let long : length (table_bytes addrs) ≡ 16 * k = length-table_bytes addrs h in
      let sizes : length before + (16 * k + length after) < 2 ^ 31 = omega (
        arith,
        length-append before (table_bytes addrs ++ after),
        length-append (table_bytes addrs) after,
      ) in
      let handled =
        handled_lem k (length before) (length (table_bytes addrs)) long dfin (omega arith) in
      let buffer = before ++ (table_bytes addrs ++ after) in
      let same =
        sort_of_Apart (length buffer) 0 (fills k (length before))
          (fills-Apart (length buffer) 0 k (length before) (omega arith) (omega arith)) in
      (
        ap (λ (t : ℕ × Mutator). t.0) handled ∙ omega (arith, length-widened addrs),
        ap (λ (t : ℕ × Mutator). mutate t.1 buffer) handled
            ∙ mutate-patched (fills k (length before)) buffer
                (rw same
                  (fills-Apart (length buffer) 0 k (length before) (omega arith) (omega arith)))
                (omega (arith, total-fills k (length before)))
            ∙ rw same (ap some (patched-fills before after addrs h)),
      )
