-- ===== src/Transaction/TypeTags.antt =====
-- `unwrap_spanned_ty` of resource-viewer/src/tte.rs: the type tag that a parsed type stands for.
-- The test of `Identifier::new` is a parameter.
pub mod Written
use move_language_server.Base.{ℕ, Bool, Option, none, some, if◌then◌else◌}
use move_language_server.Base.Classes.{eqb}
use move_language_server.Base.Text.{Bytes, codes}
use move_language_server.Executor.Tags.{
  TypeTag, bool, u8, u64, u128, address, signer, vector, struct, struct_tag, TypeTags, nil, cons,
  bytes_eq,
}
use move_language_server.Dove.Ast.{
  MoveType, unit_type, multiple, apply, ref, fun, MoveTypes, no_types, more_types,
  qualified_module_access, module_access, name_access,
}
use move_language_server.Transaction.Outcome.{
  Outcome, ok, failed, ◌>>=◌, ◌>>◌, ensure, unwrap, unsupported_type, bad_identifier,
}

-- The match on a name; `vector_item` is the outcome of the one type parameter of a `Vec`.
unfoldable pub named_tag : Bytes → Outcome TypeTag → Outcome TypeTag
named_tag name vector_item =
    if eqb name (codes "bool")
    then ok bool
    else if eqb name (codes "u8")
    then ok u8
    else if eqb name (codes "u64")
    then ok u64
    else if eqb name (codes "u128")
    then ok u128
    else if eqb name (codes "address")
    then ok address
    else if eqb name (codes "signer")
    then ok signer
    else if eqb name (codes "Vec")
    then (do item ← vector_item; ok (vector item))
    else failed unsupported_type

module _ (is_identifier : Bytes → Bool) where
  unfoldable pub struct_of : ℕ → Bytes → Bytes → Outcome TypeTags → Outcome TypeTag
  struct_of addr module_name name type_params = do
    ensure (is_identifier module_name) bad_identifier
    ensure (is_identifier name) bad_identifier
    params ← type_params
    ok (struct (struct_tag addr module_name name params))

  unfoldable mutual
    unfolding named_tag struct_of

    -- `this` is the address of the struct around the type.
    pub unwrap_spanned_ty_ : Option ℕ → MoveType → Outcome TypeTag
    unwrap_spanned_ty_ this (apply (name_access name) ty_params) =
        named_tag name (unwrap_item this ty_params)
    unwrap_spanned_ty_ none (apply (module_access module_name name) ty_params) =
        failed unsupported_type
    unwrap_spanned_ty_ (some addr) (apply (module_access module_name name) ty_params) =
        struct_of addr module_name name (unwrap_params addr ty_params)
    unwrap_spanned_ty_ this (apply (qualified_module_access (addr, module_name) name) ty_params) =
        struct_of addr module_name name (unwrap_params addr ty_params)
    unwrap_spanned_ty_ this unit_type = failed unsupported_type
    unwrap_spanned_ty_ this (multiple tys) = failed unsupported_type
    unwrap_spanned_ty_ this (ref is_mut ty) = failed unsupported_type
    unwrap_spanned_ty_ this (fun tys ty) = failed unsupported_type

    -- The guard `ty_params.len() == 1` and the `unwrap` of the one parameter.
    pub unwrap_item : Option ℕ → MoveTypes → Outcome TypeTag
    unwrap_item this no_types = failed unsupported_type
    unwrap_item this (more_types ty no_types) = unwrap (unwrap_spanned_ty_ this ty)
    unwrap_item this (more_types ty (more_types _ _)) = failed unsupported_type

    -- An error in a type parameter is a panic.
    pub unwrap_params : ℕ → MoveTypes → Outcome TypeTags
    unwrap_params addr no_types = ok nil
    unwrap_params addr (more_types ty tys) = do
      tag ← unwrap (unwrap_spanned_ty_ (some addr) ty)
      tags ← unwrap_params addr tys
      ok (cons tag tags)

  unfoldable pub unwrap_spanned_ty : MoveType → Outcome TypeTag
  unfolding unwrap_spanned_ty_
  unwrap_spanned_ty ty = unwrap_spanned_ty_ none ty
