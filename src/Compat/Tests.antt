-- ===== src/Compat/Tests.antt =====
-- Runs of the mutator on a small buffer and of the adapter on small tables.
use mathlib.Core.Option
use move_language_server.Base.{
  none, ◌*◌, ◌%◌, Option, Option-cases, inl, inr, ℕ, ◌+◌, ◌-◌, ◌==◌, ◌≡◌, refl, arith, List, [],
  ◌∷◌, ◌++◌, some, length, get_elem?,
}
use move_language_server.Base.Int.{as_usize, ◌+ℤ◌}
use move_language_server.Base.Text.{Bytes, codes}
use move_language_server.Compat.Adapt.{
  u32_mod, Reader, handle_address_identifiers, handle_const_pool, adapt,
}
use move_language_server.Compat.Adapt.Constants.{
  Advances, Constants, finished, address_constant, other_constant, handle_const_pool_returns,
}
use move_language_server.Compat.Adapt.Tables.{widened, table_bytes, address_table-widened}
use move_language_server.Compat.Mutator.{
  Mutator, new, mutate, mutate_loop, make_diff, vec_insert, sort_by_start,
}
use move_language_server.Compat.Mutator.Patch.{patched}
use move_language_server.Compat.Mutator.InPlace.{mutate-patched}

abbrev sample_buffer : Bytes
sample_buffer = codes "abcdefgh"

abbrev sample_diffs : Mutator
sample_diffs =
    record { start = 5; end = 7; value = codes "x" }
    ∷ record { start = 1; end = 2; value = codes "long" }
    ∷ []

mutate-patched_example :
    mutate sample_diffs sample_buffer ≡ some (patched sample_buffer 0 (sort_by_start sample_diffs))
unfolding sort_by_start
mutate-patched_example = mutate-patched sample_diffs sample_buffer (ground arith) (omega arith)

abbrev sample_reader : Reader
sample_reader = record {
  SignatureToken = ℕ;
  is_address = λ token. token == 5;
  check_binary = λ bytes. some 0;
  read_u8 = λ bytes i. Option.map (λ b. (b, i + 1)) (get_elem? bytes i);
  read_uleb128_as_u64 = λ bytes i. Option.map (λ b. (b, i + 1)) (get_elem? bytes i);
  write_u64_as_uleb128 = λ n. some (n ∷ []);
  load_signature_token = λ bytes i. Option.map (λ b. (b, i + 1)) (get_elem? bytes i);
  load_constant_size = λ bytes i. Option.map (λ b. (b, i + 1)) (get_elem? bytes i);
  address_identifiers = 5;
  constant_pool = 6;
  dfin_addr_len = 20;
}

abbrev sample_addresses : List Bytes
sample_addresses = codes "0123456789abcdef" ∷ codes "fedcba9876543210" ∷ []

address_table-widened_example :
    let (grown, mutator) = handle_address_identifiers sample_reader 3 32 new in
    (grown ≡ length (widened sample_addresses) - length (table_bytes sample_addresses))
    × (mutate mutator (codes "pre" ++ (table_bytes sample_addresses ++ codes "post"))
        ≡ some (codes "pre" ++ (widened sample_addresses ++ codes "post")))
address_table-widened_example =
    address_table-widened sample_reader (codes "pre") (codes "post") sample_addresses
      (refl, (refl, tt)) (omega arith) refl

-- A whole file: one table with one address.
abbrev sample_file : Bytes
sample_file = 1 ∷ 5 ∷ 0 ∷ 16 ∷ codes "0123456789abcdef"

adapt_run :
    adapt sample_reader 10 sample_file
    ≡ some (1 ∷ 5 ∷ 0 ∷ 20 ∷ 0 ∷ 0 ∷ 0 ∷ 0 ∷ codes "0123456789abcdef")
unfolding adapt sort_by_start mutate mutate_loop make_diff as_usize ◌+ℤ◌ vec_insert
adapt_run = refl

abbrev read_byte : Bytes → ℕ → Option (ℕ × ℕ)
read_byte bytes i = Option.map (λ b. (b, i + 1)) (get_elem? bytes i)

read_byte-behind : (bytes : Bytes) (i : ℕ) (r : ℕ × ℕ) → read_byte bytes i ≡ some r → r.1 ≡ i + 1
read_byte-behind bytes i r h = elim (Option-cases (get_elem? bytes i)) [
  | inl e ↦ let no : none ≡ some r = rw e at h in cc no
  | inr (b, e) ↦ let same : some (b, i + 1) ≡ some r = rw e at h in cc same
]

sample_reader-Advances : Advances sample_reader
sample_reader-Advances = record {
  token_forward = λ bytes c r h. omega (arith, read_byte-behind bytes c r h);
  size_forward = λ bytes c r h. omega (arith, read_byte-behind bytes c r h);
}

-- Two constants: an address and a number.
abbrev sample_pool : Bytes
sample_pool = 5 ∷ 16 ∷ (codes "0123456789abcdef" ++ (3 ∷ 2 ∷ 0 ∷ 1 ∷ []))

sample_pool-Constants : Constants sample_reader sample_reader-Advances sample_pool (0 + 22) 0 1
sample_pool-Constants =
    address_constant (5, 1) (16, 2) (omega arith) refl refl refl
      (other_constant (3, 19) (2, 20) (omega arith) refl refl refl (finished (omega arith)))

handle_const_pool_returns_example :
    (m : Mutator) × (handle_const_pool sample_reader sample_pool 23 0 22 []
      ≡ some (4 * 1 % u32_mod, m))
handle_const_pool_returns_example =
    handle_const_pool_returns sample_reader sample_reader-Advances sample_pool (λ n. (n ∷ [], refl))
      refl 23 0 22 1 [] sample_pool-Constants (omega arith)
