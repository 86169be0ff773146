-- ===== src/Compiler/Addresses.antt =====
-- lang/src/compiler/ss58.rs, bech32.rs and dialects/libra/addresses.rs: the addresses of other chains in a source, and their
-- replacement by addresses of libra. The codecs, the hash and the regular expressions are not in
-- this repository: `ss58_matches` and `bech32_matches` give the end and the text of each match.
pub mod Positions
pub mod Shorter
use move_language_server.Base.{
  ℕ, zero, suc, ◌-◌, ◌==◌, ◌+◌, Bool, true, false, List, [], ◌∷◌, ◌++◌, Option, none, some, ◌>>=◌,
  length, take, drop, if◌then◌else◌,
}
use move_language_server.Base.Classes.{eqb}
use move_language_server.Base.Text.{Bytes, codes, starts_with}
use move_language_server.Executor.Tags.{bytes_eq}
use move_language_server.Compiler.SourceMap.{FileOffsetMap, insert_address_layer}
use move_language_server.Compiler.SourceMap.Edits.{splice}
use move_language_server.Compiler.SourceMap.Project.{replace_text}

pub record Codecs : Type 0 where
  pub from_base58 : Bytes → Option Bytes
  pub blake2b : Bytes → Bytes
  pub encode_upper : Bytes → Bytes
  pub hex_decode : Bytes → Option Bytes
  pub from_hex_literal : Bytes → Option ℕ
  pub bech32_decode : Bytes → Option Bytes
  pub convert_bits : Bytes → ℕ → ℕ → Option Bytes
  pub bech32_encode : Bytes → Bytes → Option Bytes
  pub ss58_matches : Bytes → List (ℕ × Bytes)
  pub bech32_matches : Bytes → List (ℕ × Bytes)

abbrev pub pub_key_length : ℕ
pub_key_length = 32

-- `if let Ok(address) = decode(text) { .. } else { none }` as a chain of optional values.
abbrev guard : Bool → Option (Unit {0})
guard true = some tt
guard false = none

abbrev slice : ℕ → ℕ → Bytes → Bytes
slice from to text = take (to - from) (drop from text)

module _ (codecs : Codecs) where
  open codecs use {
    from_base58, blake2b, encode_upper, hex_decode, bech32_decode, convert_bits, bech32_encode,
    ss58_matches, bech32_matches,
  }

  unfoldable pub ss58hash : Bytes → Bytes
  ss58hash text = blake2b (codes "SS58PRE" ++ text)

  unfoldable pub ss58_to_libra : Bytes → Option Bytes
  unfolding ss58hash
  ss58_to_libra ss58 = do
    bs58 ← from_base58 ss58
    checked ← guard (length bs58 == pub_key_length + 3)
    matching ← guard (
        eqb (slice (pub_key_length + 1) (pub_key_length + 3) bs58)
          (take 2 (ss58hash (take (pub_key_length + 1) bs58))))
    some (codes "0x" ++ encode_upper (slice 1 (pub_key_length + 1) bs58))

  -- `trim_start_matches('0')`
  unfoldable pub trim_zeros : Bytes → Bytes
  trim_zeros [] = []
  trim_zeros (c ∷ text) = if c == b'0' then trim_zeros text else c ∷ text

  unfoldable pub bech32_into_libra : Bytes → Option Bytes
  unfolding trim_zeros
  bech32_into_libra addr = do
    data_bytes ← bech32_decode addr
    converted ← convert_bits data_bytes 5 8
    some (codes "0x" ++ trim_zeros (encode_upper converted))

  unfoldable pub libra_into_bech32 : Bytes → Option Bytes
  unfolding starts_with
  libra_into_bech32 libra_address = do
    prefixed ← guard (starts_with libra_address (codes "0x"))
    long ← guard (length libra_address == 42)
    bytes ← hex_decode (drop 2 libra_address)
    converted ← convert_bits bytes 8 5
    bech32_encode (codes "wallet") converted

  -- The loop over the matches, with the text that is changed.
  unfoldable pub replace_each :
      (Bytes → Option Bytes) → List (ℕ × Bytes) → Bytes → FileOffsetMap → Bytes × FileOffsetMap
  replace_each convert [] transformed_source map = (transformed_source, map)
  replace_each convert ((end, orig_address) ∷ matches) transformed_source map =
      let skipped = replace_each convert matches transformed_source map in
      let replaced = λ (libra_address : Bytes).
        replace_each convert matches (replace_text orig_address libra_address transformed_source)
          (insert_address_layer map end orig_address libra_address) in
      if starts_with orig_address (codes "0x") then skipped else elim (convert orig_address) [
        | none ↦ skipped
        | some libra_address ↦ replaced libra_address
      ]

  unfoldable pub replace_ss58_addresses : Bytes → FileOffsetMap → Bytes × FileOffsetMap
  unfolding ss58_to_libra replace_each
  replace_ss58_addresses source map = replace_each ss58_to_libra (ss58_matches source) source map

  unfoldable pub replace_bech32_addresses : Bytes → FileOffsetMap → Bytes × FileOffsetMap
  unfolding bech32_into_libra replace_each
  replace_bech32_addresses source map =
      replace_each bech32_into_libra (bech32_matches source) source map

-- replace_libra_address. `captures` answers the start and the length of the first match, `account_text`
-- the 32 digits of an address of 16 bytes.
module _ (captures : Bytes → Option (ℕ × ℕ)) (account_text : Bytes → Bytes) where
  abbrev pub repl_address : Bytes → Bytes
  repl_address orig_address = codes "0x00000000" ++ account_text orig_address

  -- `while let Some(mat) = captures(..)`: the text and the map after so many turns, or at the end of the
  -- loop if that comes first.
  unfoldable pub replace_libra_address : ℕ → Bytes → FileOffsetMap → Bytes × FileOffsetMap
  replace_libra_address zero source map = (source, map)
  replace_libra_address (suc turns) source map = elim (captures source) [
    | none ↦ (source, map)
    | some (start, len) ↦
        replace_libra_address turns
          (splice start len (repl_address (take len (drop start source))) source)
          (insert_address_layer map (start + len) (take len (drop start source))
            (repl_address (take len (drop start source))))
  ]
