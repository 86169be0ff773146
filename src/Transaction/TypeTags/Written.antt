-- ===== src/Transaction/TypeTags/Written.antt =====
-- The type that a source writes for a type tag, and that it is read back.
use move_language_server.Base.{ℕ, ◌≡◌, refl, Bool, true, Option, none, some}
use move_language_server.Base.Text.{Bytes, codes}
use move_language_server.Executor.Tags.{
  TypeTag, bool, u8, u64, u128, address, signer, vector, struct, struct_tag, TypeTags, nil, cons,
  bytes_eq,
}
use move_language_server.Dove.Ast.{
  MoveType, apply, MoveTypes, no_types, more_types, qualified_module_access, name_access,
}
use move_language_server.Transaction.Outcome.{ok}
use move_language_server.Transaction.TypeTags.{
  struct_of, unwrap_spanned_ty, unwrap_spanned_ty_, unwrap_params,
}

unfoldable mutual
  pub written : TypeTag → MoveType
  written bool = apply (name_access (codes "bool")) no_types
  written u8 = apply (name_access (codes "u8")) no_types
  written u64 = apply (name_access (codes "u64")) no_types
  written u128 = apply (name_access (codes "u128")) no_types
  written address = apply (name_access (codes "address")) no_types
  written signer = apply (name_access (codes "signer")) no_types
  written (vector item) = apply (name_access (codes "Vec")) (more_types (written item) no_types)
  written (struct (struct_tag addr module_name name params)) =
      apply (qualified_module_access (addr, module_name) name) (written_all params)

  pub written_all : TypeTags → MoveTypes
  written_all nil = no_types
  written_all (cons tag tags) = more_types (written tag) (written_all tags)

module _ (is_identifier : Bytes → Bool) where
  -- All names in a tag are identifiers.
  unfoldable mutual
    pub Named : TypeTag → Type 0
    Named bool = Unit
    Named u8 = Unit
    Named u64 = Unit
    Named u128 = Unit
    Named address = Unit
    Named signer = Unit
    Named (vector item) = Named item
    Named (struct (struct_tag addr module_name name params)) =
        (is_identifier module_name ≡ true) × (is_identifier name ≡ true) × AllNamed params

    pub AllNamed : TypeTags → Type 0
    AllNamed nil = Unit
    AllNamed (cons tag tags) = Named tag × AllNamed tags

  struct_of-ok :
      (addr : ℕ) (module_name name : Bytes) (params : TypeTags)
      → is_identifier module_name ≡ true
      → is_identifier name ≡ true
      → struct_of is_identifier addr module_name name (ok params)
        ≡ ok (struct (struct_tag addr module_name name params))
  unfolding struct_of
  struct_of-ok addr module_name name params h k = rw (h, k) refl

  mutual
    unfolding written Named unwrap_spanned_ty_

    pub unwrap-written :
        (this : Option ℕ) (tag : TypeTag)
        → Named tag
        → unwrap_spanned_ty_ is_identifier this (written tag) ≡ ok tag
    unwrap-written this bool h = refl
    unwrap-written this u8 h = refl
    unwrap-written this u64 h = refl
    unwrap-written this u128 h = refl
    unwrap-written this address h = refl
    unwrap-written this signer h = refl
    unwrap-written this (vector item) h = rw (unwrap-written this item h) refl
    unwrap-written this (struct (struct_tag addr module_name name params)) h =
        rw (unwrap-written_all addr params h.2) (struct_of-ok addr module_name name params h.0 h.1)

    unwrap-written_all :
        (addr : ℕ) (tags : TypeTags)
        → AllNamed tags
        → unwrap_params is_identifier addr (written_all tags) ≡ ok tags
    unwrap-written_all addr nil h = refl
    unwrap-written_all addr (cons tag tags) h =
        rw (unwrap-written (some addr) tag h.0, unwrap-written_all addr tags h.1) refl

  -- The type that a source writes for a type tag whose names are identifiers is read as that tag.
  pub unwrap_spanned_ty-written :
      (tag : TypeTag) → Named tag → unwrap_spanned_ty is_identifier (written tag) ≡ ok tag
  unfolding unwrap_spanned_ty
  unwrap_spanned_ty-written tag h = unwrap-written none tag h
