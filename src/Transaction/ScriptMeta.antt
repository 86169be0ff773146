-- ===== src/Transaction/ScriptMeta.antt =====
-- `make_script_meta` of lang/src/meta_extractor.rs: the name, type parameters and parameters of a
-- script, the types of the parameters as texts.
use move_language_server.Base.{ℕ, true, false, List, [], ◌∷◌, ◌++◌, map}
use move_language_server.Base.Text.{Bytes, codes}
use move_language_server.Dove.Ast.{
  MoveType, unit_type, multiple, apply, ref, fun, MoveTypes, no_types, more_types, ModuleAccess,
  qualified_module_access, module_access, name_access,
}

-- `join(", ")`
unfoldable pub join : List Bytes → Bytes
join [] = []
join (text ∷ []) = text
join (text ∷ next ∷ texts) = text ++ (codes ", " ++ join (next ∷ texts))

-- What the code reads of the function of a script.
pub record ScriptFunction : Type 0 where
  pub function_name : Bytes
  pub type_params : List Bytes
  pub params : List (Bytes × MoveType)

pub record Meta : Type 0 where
  pub name : Bytes
  pub type_parameters : List Bytes
  pub parameters : List (Bytes × Bytes)

-- How an address is written is a parameter.
module _ (show_address : ℕ → Bytes) where
  unfoldable pub access_name : ModuleAccess → Bytes
  access_name (name_access name) = name
  access_name (module_access module_name name) = module_name ++ (codes "::" ++ name)
  access_name (qualified_module_access (addr, module_name) name) =
      show_address addr ++ (codes "::" ++ (module_name ++ (codes "::" ++ name)))

  unfoldable mutual
    unfolding join access_name

    pub extract_type_name : MoveType → Bytes
    extract_type_name (apply access no_types) = access_name access
    extract_type_name (apply access (more_types ty tys)) =
        access_name access
        ++ (codes "<" ++ (join (extract_type_names (more_types ty tys)) ++ codes ">"))
    extract_type_name (ref true ty) = codes "&mut " ++ extract_type_name ty
    extract_type_name (ref false ty) = codes "&" ++ extract_type_name ty
    extract_type_name (fun tys ty) =
        codes "(" ++ (join (extract_type_names tys) ++ (codes "):" ++ extract_type_name ty))
    extract_type_name unit_type = codes "()"
    extract_type_name (multiple tys) = codes "(" ++ (join (extract_type_names tys) ++ codes ")")

    pub extract_type_names : MoveTypes → List Bytes
    extract_type_names no_types = []
    extract_type_names (more_types ty tys) = extract_type_name ty ∷ extract_type_names tys

  unfoldable pub make_script_meta : ScriptFunction → Meta
  unfolding extract_type_name
  make_script_meta script = record {
    name = script.function_name;
    type_parameters = script.type_params;
    parameters = map (λ (p : Bytes × MoveType). (p.0, extract_type_name p.1)) script.params;
  }
