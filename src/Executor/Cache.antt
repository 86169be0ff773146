-- ===== src/Executor/Cache.antt =====
-- `FakeRemoteCache` of executor/src/execution.rs: the modules and resources that scripts run on.
pub mod Laws
use mathlib.Core.List.{foldl}
use move_language_server.Base.{ℕ, ◌+◌, List, [], ◌∷◌, ◌++◌, Option, none, some, ◌>>=◌, length}
use move_language_server.Base.Assoc.{Assoc, lookup, insert, remove}
use move_language_server.Base.Classes.{Eq, nat_eq, pair_eq}
use move_language_server.Base.Text.{Bytes}
use move_language_server.Executor.Tags.{StructTag, ModuleId, tag_eq, bytes_eq}

-- address and struct tag
abbrev pub ResourceKey : Type 0
ResourceKey = ℕ × StructTag

pub record FakeRemoteCache : Type 0 where
  pub modules : Assoc ModuleId Bytes
  pub resources : Assoc ResourceKey Bytes

-- The writes of a transaction: for each address, its tags with a value or a removal.
abbrev pub ResourceChanges : Type 0 → Type 0
ResourceChanges Value = List (ℕ × List (StructTag × Option Value))

abbrev pub SerializedTransactionEffects : Type 0
SerializedTransactionEffects = List (ResourceKey × Option Bytes)

unfoldable pub get_resource_bytes : FakeRemoteCache → ℕ → StructTag → Option Bytes
get_resource_bytes c addr tag = lookup (addr, tag) c.resources

unfoldable pub get_module_bytes : FakeRemoteCache → ModuleId → Option Bytes
get_module_bytes c id = lookup id c.modules

-- RemoteCache::get_module; `none` is its STORAGE_ERROR.
unfoldable pub get_module : FakeRemoteCache → ModuleId → Option Bytes
unfolding get_module_bytes
get_module c id = elim (lookup id c.modules) [
  | none ↦ elim (get_module_bytes c id) [ some bytes ↦ some bytes | none ↦ none ]
  | some m ↦ some m
]

-- RemoteCache::get_resource
unfoldable pub get_resource : FakeRemoteCache → ℕ → StructTag → Option Bytes
unfolding get_resource_bytes
get_resource c addr tag = elim (lookup (addr, tag) c.resources) [
  | none ↦ get_resource_bytes c addr tag
  | some r ↦ some r
]

-- The serialisation of modules and values is the virtual machine's.
module _ {Module : Type 0} (self_id : Module → ModuleId) (serialize : Module → Option Bytes) where
  unfoldable pub new_modules : List Module → Assoc ModuleId Bytes → Option (Assoc ModuleId Bytes)
  new_modules [] modules = some modules
  new_modules (m ∷ ms) modules = do
    module_bytes ← serialize m
    new_modules ms (insert (self_id m) module_bytes modules)

  -- FakeRemoteCache::new
  unfoldable pub new : List Module → Option FakeRemoteCache
  unfolding new_modules
  new compiled = do
    modules ← new_modules compiled []
    some (record { modules = modules; resources = [] })

module _ {Value : Type 0} (simple_serialize : Value → Bytes) where
  unfoldable pub serialize_changes :
      ℕ → List (StructTag × Option Value) → SerializedTransactionEffects × ℕ
  serialize_changes addr [] = ([], 0)
  serialize_changes addr ((tag, none) ∷ changes) =
      let (rest, size) = serialize_changes addr changes in (((addr, tag), none) ∷ rest, size)
  serialize_changes addr ((tag, some v) ∷ changes) =
      let (rest, size) = serialize_changes addr changes in
      let serialized = simple_serialize v in
      (((addr, tag), some serialized) ∷ rest, length serialized + size)

  unfoldable pub serialize_effects : ResourceChanges Value → SerializedTransactionEffects × ℕ
  unfolding serialize_changes
  serialize_effects [] = ([], 0)
  serialize_effects ((addr, changes) ∷ effects) =
      let (here, size) = serialize_changes addr changes in
      let (rest, more) = serialize_effects effects in (here ++ rest, size + more)

unfoldable pub merge_effect : FakeRemoteCache → ResourceKey × Option Bytes → FakeRemoteCache
merge_effect c (key, some val) = record c { resources = insert key val c.resources }
merge_effect c (key, none) = record c { resources = remove key c.resources }

unfoldable pub merge_effects : FakeRemoteCache → SerializedTransactionEffects → FakeRemoteCache
unfolding merge_effect
merge_effects c [] = c
merge_effects c (e ∷ es) = merge_effects (merge_effect c e) es
