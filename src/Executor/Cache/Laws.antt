-- ===== src/Executor/Cache/Laws.antt =====
-- What a merge of effects leaves in the store.
use move_language_server.Base.{ℕ, ◌≡◌, refl, ap, ◌∙◌, [], ◌∷◌, Option, none, some, if◌then◌else◌}
use move_language_server.Base.Assoc.{lookup, lookup-insert, lookup-remove}
use move_language_server.Base.Classes.{nat_eq, pair_eq}
use move_language_server.Base.Text.{Bytes}
use move_language_server.Executor.Tags.{StructTag, tag_eq}
use move_language_server.Executor.Cache.{
  FakeRemoteCache, ResourceKey, SerializedTransactionEffects, get_resource_bytes, merge_effect,
  merge_effects,
}

-- The last write to a key, over what was there.
abbrev pub last_write : ResourceKey → SerializedTransactionEffects → Option Bytes → Option Bytes
last_write k [] before = before
last_write k ((j, val) ∷ es) before = last_write k es (if pair_eq.beq j k then val else before)

lookup-merge_effect :
    (c : FakeRemoteCache) (j : ResourceKey) (val : Option Bytes) (k : ResourceKey)
    → lookup k (merge_effect c (j, val)).resources
      ≡ (if pair_eq.beq j k then val else lookup k c.resources)
unfolding merge_effect
lookup-merge_effect c j (some v) k = lookup-insert j k v c.resources
lookup-merge_effect c j none k = lookup-remove j k c.resources

modules-merge_effect :
    (c : FakeRemoteCache) (e : ResourceKey × Option Bytes) → (merge_effect c e).modules ≡ c.modules
unfolding merge_effect
modules-merge_effect c (j, some v) = refl
modules-merge_effect c (j, none) = refl

-- After a merge each resource is what the last write of its key left, or what it was, and the
-- modules are as before.
pub merge_effects-last_write :
    (c : FakeRemoteCache) (es : SerializedTransactionEffects) (addr : ℕ) (tag : StructTag)
    → (get_resource_bytes (merge_effects c es) addr tag
        ≡ last_write (addr, tag) es (get_resource_bytes c addr tag))
      × ((merge_effects c es).modules ≡ c.modules)
unfolding merge_effects get_resource_bytes
merge_effects-last_write c [] addr tag = (refl, refl)
merge_effects-last_write c ((j, val) ∷ es) addr tag =
    let (written, kept) = merge_effects-last_write (merge_effect c (j, val)) es addr tag in
    (
      written ∙ ap (last_write (addr, tag) es) (lookup-merge_effect c j val (addr, tag)),
      kept ∙ modules-merge_effect c (j, val),
    )
