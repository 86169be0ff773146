-- ===== src/Dove/Meta/Imports.antt =====
-- The imports of a module's metadata against the modules that the module names.
use move_language_server.Base.{ℕ, ◌≡◌, refl, ap, ◌∙◌, Bool, true, [], ◌∷◌, some, All}
use move_language_server.Base.Classes.{nat_eq}
use move_language_server.Base.Text.{Bytes}
use move_language_server.Executor.Tags.{bytes_eq}
use move_language_server.Dove.Ast.{ModuleDefinition}
use move_language_server.Dove.Meta.Mentions.{Mentioned, in_members}
use move_language_server.Dove.Meta.Laws.{insert_all, Inserts, inserts, members_usages-in_members}
use move_language_server.Dove.Meta.{
  Imports, insert_id, DefinitionMeta, Walk, insert_import, members_usages, module_meta,
}

module _ (is_identifier : Bytes → Bool) where
  -- The names of the modules are identifiers.
  abbrev pub Valid : Mentioned → Type 0
  Valid = All (λ id. is_identifier id.1 ≡ true)

  insert_all_returns :
      (ids : Mentioned) (start : Imports)
      → Valid ids
      → (imports : Imports) × (insert_all is_identifier ids start ≡ some imports)
  unfolding insert_all insert_import
  insert_all_returns [] start valid = (start, refl)
  insert_all_returns ((a, n) ∷ ids) start (here, valid) =
      rw here (insert_all_returns ids (insert_id (a, n) start) valid)

  as_inserted :
      (f : Walk) (ids : Mentioned) (start : Imports)
      → Inserts is_identifier f ids
      → f start ≡ insert_all is_identifier ids start
  as_inserted f ids start (inserts p) = ap (λ g. g start) p

  -- For a module whose own name is an identifier, as are the names of the modules that its members
  -- name outside lambdas, indexed expressions, annotations and the nested bindings of an unpacking
  -- without type arguments, the walk returns metadata.
  pub module_meta_returns :
      (m : ModuleDefinition) (address : ℕ)
      → Valid ((address, m.module_name) ∷ in_members m.members)
      → (meta : DefinitionMeta) × (module_meta is_identifier m address ≡ some meta)
  unfolding module_meta
  module_meta_returns m address (here, valid) =
      let (imports, e) = insert_all_returns (in_members m.members) [] valid in
      let walked : members_usages is_identifier m.members [] ≡ some imports =
        as_inserted _ _ [] (members_usages-in_members is_identifier m.members) ∙ e in
      (record { module_id = (address, m.module_name); imports = imports }, rw here (rw walked refl))
