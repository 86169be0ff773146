-- ===== src/Executor/Tags.antt =====
-- The type and struct tags of move-core-types as the executor builds them, and
-- executor/src/oracles.rs: the tags of the resources that it puts into the store. An address is
-- the number that its bytes spell; a name is a list of bytes.
use native.Mathlib.Decide.{ℕ_discrete}
use move_language_server.Base.{ℕ, ◌-◌, ◌&&◌, map, leb, if◌then◌else◌}
use move_language_server.Base.Classes.{Eq, of_discrete, list_eq, nat_eq}
use move_language_server.Base.Text.{Bytes, codes}

mutual
  pub data TypeTag : Type 0 where
    bool u8 u64 u128 address signer : TypeTag
    vector : TypeTag → TypeTag
    struct : StructTag → TypeTag

  -- address, module, name and type parameters
  pub data StructTag : Type 0 where
    struct_tag : ℕ → Bytes → Bytes → TypeTags → StructTag

  pub data TypeTags : Type 0 where
    nil : TypeTags
    cons : TypeTag → TypeTags → TypeTags

pub StructTag-discrete : Discrete StructTag
StructTag-discrete = hlevel ℕ_discrete

instance abbrev pub tag_eq : Eq StructTag
tag_eq = of_discrete StructTag-discrete

instance abbrev pub bytes_eq : Eq Bytes
bytes_eq = list_eq

abbrev pub core_code_address : ℕ
core_code_address = 1

-- `to_uppercase` on ASCII: an identifier has no other characters.
unfoldable pub to_uppercase : Bytes → Bytes
to_uppercase = map (λ c. if leb b'a' c && leb c b'z' then c - 32 else c)

unfoldable pub currency_type : Bytes → TypeTag
unfolding to_uppercase
currency_type curr =
    let upper = to_uppercase curr in
    if bytes_eq.beq upper (codes "XFI")
    then struct (struct_tag core_code_address (codes "XFI") (codes "T") nil)
    else struct (struct_tag core_code_address (codes "Coins") upper nil)

-- address and name
abbrev pub ModuleId : Type 0
ModuleId = ℕ × Bytes

abbrev pub oracle_coins_module : ModuleId
oracle_coins_module = (1, codes "Coins")

unfoldable pub oracle_metadata : Bytes → Bytes → StructTag
unfolding currency_type
oracle_metadata first second =
    struct_tag core_code_address (codes "Coins") (codes "Price")
      (cons (currency_type first) (cons (currency_type second) nil))

abbrev pub block_metadata : StructTag
block_metadata = struct_tag core_code_address (codes "Block") (codes "BlockMetadata") nil

abbrev pub time_metadata : StructTag
time_metadata = struct_tag core_code_address (codes "Time") (codes "CurrentTimestamp") nil

unfoldable pub coin_balance_metadata : Bytes → StructTag
unfolding currency_type
coin_balance_metadata currency =
    struct_tag core_code_address (codes "Account") (codes "Balance")
      (cons (currency_type currency) nil)
