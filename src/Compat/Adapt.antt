-- ===== src/Compat/Adapt.antt =====
-- lang/compat/src/lib.rs with context.rs: the differences that adapt bytecode with addresses of 16
-- bytes. A cursor is its position in the bytes. The readers of the binary format are not in this
-- repository, so they are a parameter; `none` is an error. Sums of type `u32` keep their wrap-around.
pub mod Constants
pub mod Tables
use move_language_server.Base.{
  ℕ, zero, suc, ◌+◌, ◌-◌, ◌*◌, ◌/◌, ◌%◌, ◌^◌, Bool, true, false, List, [], ◌∷◌, ◌++◌, Option, none,
  some, ◌>>=◌, ltb, ◌==◌, if◌then◌else◌,
}
use move_language_server.Base.Text.{Bytes}
use move_language_server.Compat.Mutator.{Mutator, new, make_diff, mutate}

-- Each reader takes the bytes and a position, and answers what it read and the position behind it.
pub record Reader : Type 1 where
  pub SignatureToken : Type 0
  pub is_address : SignatureToken → Bool
  pub check_binary : Bytes → Option ℕ
  pub read_u8 : Bytes → ℕ → Option (ℕ × ℕ)
  pub read_uleb128_as_u64 : Bytes → ℕ → Option (ℕ × ℕ)
  pub write_u64_as_uleb128 : ℕ → Option Bytes
  pub load_signature_token : Bytes → ℕ → Option (SignatureToken × ℕ)
  pub load_constant_size : Bytes → ℕ → Option (ℕ × ℕ)
  pub address_identifiers : ℕ
  pub constant_pool : ℕ
  pub dfin_addr_len : ℕ

abbrev pub libra_addr_len : ℕ
libra_addr_len = 16

abbrev pub u32_mod : ℕ
u32_mod = 2 ^ 32

abbrev pub filler : Bytes
filler = 0 ∷ 0 ∷ 0 ∷ 0 ∷ []

-- `for idx in (0..len).step_by(LIBRA_ADDR_LEN)`, with the number of its turns.
unfoldable pub fill_loop : ℕ → ℕ → Mutator → Mutator
fill_loop zero index mutator = mutator
fill_loop (suc turns) index mutator =
    fill_loop turns (index + libra_addr_len) (make_diff mutator index index filler)

module _ (reader : Reader) where
  open reader use {
    SignatureToken, is_address, check_binary, read_u8, read_uleb128_as_u64, write_u64_as_uleb128,
    load_signature_token, load_constant_size, address_identifiers, constant_pool, dfin_addr_len,
  }

  unfoldable pub make_uleb128_diff : ℕ → ℕ → ℕ → Mutator → Option Mutator
  make_uleb128_diff start_pos end_pos new_offset mutator = do
    binary ← write_u64_as_uleb128 new_offset
    some (make_diff mutator start_pos end_pos binary)

  -- The table at `position` of `len` bytes; the answer is what the table grows by.
  unfoldable pub handle_address_identifiers : ℕ → ℕ → Mutator → ℕ × Mutator
  unfolding fill_loop
  handle_address_identifiers position len mutator =
      if len % libra_addr_len == 0
      then (
        len / libra_addr_len * (dfin_addr_len - libra_addr_len) % u32_mod,
        fill_loop (len / libra_addr_len) position mutator,
      )
      else (0, mutator)

  -- `while ctx.cursor.position() < end_offset`, on fuel; a constant takes a byte or more.
  unfoldable pub const_loop : Bytes → ℕ → ℕ → ℕ → ℕ → Mutator → Option (ℕ × Mutator)
  unfolding make_uleb128_diff
  const_loop bytes end_offset zero cursor additional_offset mutator = none
  const_loop bytes end_offset (suc fuel) cursor additional_offset mutator =
      let more = (do
        token ← load_signature_token bytes cursor
        read ← load_constant_size bytes token.1
        let size = read.0 % u32_mod
        let diff_size = (dfin_addr_len - libra_addr_len) % u32_mod
        let of_address = (do
          sized ← make_uleb128_diff token.1 read.1 ((size + diff_size) % u32_mod) mutator
          const_loop bytes end_offset fuel (read.1 + size)
              ((additional_offset + diff_size) % u32_mod) (make_diff sized read.1 read.1 filler))
        let of_other = const_loop bytes end_offset fuel (read.1 + size) additional_offset mutator
        if is_address token.0 then of_address else of_other) in
      if ltb cursor end_offset then more else some (additional_offset, mutator)

  unfoldable pub handle_const_pool : Bytes → ℕ → ℕ → ℕ → Mutator → Option (ℕ × Mutator)
  unfolding const_loop
  handle_const_pool bytes fuel position len mutator =
      const_loop bytes (position + len) fuel position 0 mutator

  unfoldable pub skip_header : Bytes → ℕ → ℕ → Option ℕ
  skip_header bytes zero cursor = some cursor
  skip_header bytes (suc table_len) cursor = do
    kind ← read_u8 bytes cursor
    offset ← read_uleb128_as_u64 bytes kind.1
    len ← read_uleb128_as_u64 bytes offset.1
    skip_header bytes table_len len.1

  unfoldable pub calc_header_size : Bytes → ℕ → ℕ → Option ℕ
  unfolding skip_header
  calc_header_size bytes table_len start = do
    end ← skip_header bytes table_len start
    some ((end % u32_mod + u32_mod - start % u32_mod) % u32_mod)

  -- The difference of the offset of a table, if tables before it have grown.
  unfoldable pub moved_diff : ℕ → ℕ → ℕ → ℕ → Mutator → Option Mutator
  unfolding make_uleb128_diff
  moved_diff start_pos end_pos offset additional_offset mutator =
      if ltb 0 additional_offset
      then make_uleb128_diff start_pos end_pos ((offset + additional_offset) % u32_mod) mutator
      else some mutator

  unfoldable pub handle_table : Bytes → ℕ → ℕ → ℕ → ℕ → Mutator → Option (ℕ × Mutator)
  unfolding handle_address_identifiers handle_const_pool
  handle_table bytes fuel kind position len mutator =
      if kind == address_identifiers
      then some (handle_address_identifiers position len mutator)
      else if kind == constant_pool
      then handle_const_pool bytes fuel position len mutator
      else some (0, mutator)

  -- The difference of the length of a table that has grown.
  unfoldable pub length_diff : ℕ → ℕ → ℕ → ℕ → Mutator → Option Mutator
  unfolding make_uleb128_diff
  length_diff start_pos end_pos t_len grown mutator =
      if ltb 0 grown
      then make_uleb128_diff start_pos end_pos ((t_len + grown) % u32_mod) mutator
      else some mutator

  -- `for _ in 0..table_len`; `base` is the sum of the header's length and size.
  unfoldable pub table_loop : Bytes → ℕ → ℕ → ℕ → ℕ → ℕ → Mutator → Option Mutator
  unfolding moved_diff handle_table length_diff
  table_loop bytes fuel base zero cursor additional_offset mutator = some mutator
  table_loop bytes fuel base (suc table_len) cursor additional_offset mutator = do
    kind ← read_u8 bytes cursor
    read ← read_uleb128_as_u64 bytes kind.1
    let offset = read.0 % u32_mod
    moved ← moved_diff kind.1 read.1 offset additional_offset mutator
    len ← read_uleb128_as_u64 bytes read.1
    let t_len = len.0 % u32_mod
    grown ← handle_table bytes fuel kind.0 ((offset + base) % u32_mod) t_len moved
    sized ← length_diff read.1 len.1 t_len grown.0 grown.1
    table_loop bytes fuel base table_len len.1 ((additional_offset + grown.0) % u32_mod) sized

  unfoldable pub collect_diff : Bytes → ℕ → ℕ → Mutator → Option Mutator
  unfolding calc_header_size table_loop
  collect_diff bytes fuel cursor mutator = do
    table_len ← read_uleb128_as_u64 bytes cursor
    header_size ← calc_header_size bytes table_len.0 table_len.1
    table_loop bytes fuel ((header_size + table_len.1) % u32_mod) table_len.0 table_len.1 0 mutator

  -- The bytes that are adapted in place; a panic of the mutator is `none`, too.
  unfoldable pub adapt : ℕ → Bytes → Option Bytes
  unfolding collect_diff
  adapt fuel bytes = do
    cursor ← check_binary bytes
    mutator ← collect_diff bytes fuel cursor new
    mutate mutator bytes
