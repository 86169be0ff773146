-- ===== src/Dove/Tests.antt =====
-- Runs of the walk on a small module.
use mathlib.Core.Path.{subst}
use move_language_server.Base.{
  ℕ, ◌<◌, ◌≡◌, refl, sym, arith, Bool, true, false, List, [], ◌∷◌, Option, none, some, All,
  if◌then◌else◌, Bool-cases, inl, inr,
}
use move_language_server.Base.Assoc.{lookup}
use move_language_server.Base.Classes.{eqb, pair_eq, nat_eq}
use move_language_server.Base.Text.{Bytes, codes}
use move_language_server.Executor.Tags.{ModuleId, bytes_eq}
use move_language_server.Dove.Ast.{
  ModuleDefinition, use_member, use_module, struct_member, defined_fields, apply,
  qualified_module_access, no_types,
}
use move_language_server.Dove.Meta.{DefinitionMeta, module_meta}
use move_language_server.Dove.Meta.Mentions.{in_type}
use move_language_server.Dove.Index
use move_language_server.Dove.Index.{
  Module, FileMeta, ModulesIndex, get_module, resolve_imports, store_meta, load, store,
}
use move_language_server.Dove.Index.Entries.{entry, last_match, file_modules, store_meta-last_match}
use move_language_server.Dove.Index.Stored.{Consistent, load-store, store_meta-Consistent}
use move_language_server.Dove.Index.Closure.{
  Known, Ranked, Resolved, Circle, Closed, resolve_imports-Resolved, resolve_imports_circle,
}
use move_language_server.Dove.Meta.Imports.{module_meta_returns}

-- Every name but the empty one.
abbrev sample_identifier : Bytes → Bool
sample_identifier [] = false
sample_identifier (c ∷ n) = true

abbrev sample_module : ModuleDefinition
sample_module = record {
  module_name = codes "M";
  members =
      use_member (use_module (1, codes "Coins") none)
      ∷ struct_member (
          defined_fields
            (apply (qualified_module_access (2, codes "Event") (codes "T")) no_types ∷ []))
      ∷ use_member (use_module (1, codes "Coins") none)
      ∷ [];
}

abbrev sample_meta : DefinitionMeta
sample_meta = record {
  module_id = (5, codes "M");
  imports = (2, codes "Event") ∷ (1, codes "Coins") ∷ [];
}

module_meta_returns_example :
    (meta : DefinitionMeta) × (module_meta sample_identifier sample_module 5 ≡ some meta)
unfolding in_type
module_meta_returns_example =
    module_meta_returns sample_identifier sample_module 5 (refl, (refl, (refl, (refl, tt))))

abbrev coins : ModuleId
coins = (1, codes "Coins")

abbrev account : ModuleId
account = (1, codes "Account")

abbrev coins_module : Module
coins_module = record {
  name = coins;
  dep_name = codes "git_0";
  path = codes "coins.move";
  source_type = Index.git_source;
  dependencies = [];
}

abbrev account_module : Module
account_module = record {
  name = account;
  dep_name = codes "./deps";
  path = codes "account.move";
  source_type = Index.local_source;
  dependencies = coins ∷ [];
}

-- Account depends on Coins.
abbrev two_modules : ModulesIndex
two_modules =
    (account, (Index.local_source, account_module) ∷ [])
    ∷ (coins, (Index.git_source, coins_module) ∷ [])
    ∷ []

abbrev no_chain : ModuleId → Option (Bytes × List FileMeta)
no_chain id = none

abbrev rank : ModuleId → ℕ
rank id = if eqb account id then 1 else 0

account_found : get_module two_modules account ≡ some account_module
unfolding get_module lookup
account_found = refl

coins_found : get_module two_modules coins ≡ some coins_module
unfolding get_module lookup
coins_found = refl

found_injective : {m n : Module} → some m ≡ some n → n ≡ m
found_injective h = cc

two_modules-Ranked : Ranked two_modules rank
unfolding get_module lookup
two_modules-Ranked id m h = elim (Bool-cases (eqb account id)) [
  | inl y ↦
      let e = found_injective (rw (y, get_module) at h) in
      subst (λ (x : Module). All (λ d. Known two_modules d × (rank d < rank id)) x.dependencies)
        (sym e) (((coins_module, coins_found), rw y (omega arith)), tt)
  | inr n ↦ elim (Bool-cases (eqb coins id)) [
    | inl y ↦
        let e = found_injective (rw y at (rw (n, get_module) at h)) in
        subst (λ (x : Module). All (λ d. Known two_modules d × (rank d < rank id)) x.dependencies)
          (sym e) tt
    | inr k ↦ absurd (cc (rw k at (rw (n, get_module) at h)))
  ]
]

resolve_imports-Resolved_example :
    Resolved two_modules
      (account ∷ [])
      []
      (resolve_imports no_chain 3 (account ∷ []) (two_modules, []))
resolve_imports-Resolved_example =
    resolve_imports-Resolved no_chain two_modules rank two_modules-Ranked 3 (account ∷ []) []
      (((account_module, account_found), omega arith), tt) (omega arith)

-- Coins depends on Account and on itself.
abbrev leaf_module : Module
leaf_module = record account_module { dependencies = [] }

abbrev looped_module : Module
looped_module = record coins_module { dependencies = account ∷ coins ∷ [] }

abbrev looped : ModulesIndex
looped =
    (account, (Index.local_source, leaf_module) ∷ [])
    ∷ (coins, (Index.git_source, looped_module) ∷ [])
    ∷ []

leaf_found : get_module looped account ≡ some leaf_module
unfolding get_module lookup
leaf_found = refl

looped_found : get_module looped coins ≡ some looped_module
unfolding get_module lookup
looped_found = refl

looped-Closed : Closed looped
unfolding get_module lookup
looped-Closed id m h = elim (Bool-cases (eqb account id)) [
  | inl y ↦
      let e = found_injective (rw (y, get_module) at h) in
      subst (λ (x : Module). All (Known looped) x.dependencies) (sym e) tt
  | inr n ↦ elim (Bool-cases (eqb coins id)) [
    | inl y ↦
        let e = found_injective (rw y at (rw (n, get_module) at h)) in
        subst (λ (x : Module). All (Known looped) x.dependencies) (sym e)
          ((leaf_module, leaf_found), ((looped_module, looped_found), tt))
    | inr k ↦ absurd (cc (rw k at (rw (n, get_module) at h)))
  ]
]

looped-Circle : Circle looped (λ id. id ≡ coins)
looped-Circle id i = (
  looped_module,
  subst (λ j. get_module looped j ≡ some looped_module) (sym i) looped_found,
  inr (inl refl),
)

resolve_imports_circle_example :
    resolve_imports no_chain 100 (coins ∷ []) (looped, []) ≡ Index.out_of_fuel
resolve_imports_circle_example =
    resolve_imports_circle no_chain looped looped-Closed (λ id. id ≡ coins) looped-Circle 100
      (coins ∷ []) [] ((looped_module, looped_found), tt) (inl refl)

abbrev sample_files : List FileMeta
sample_files =
    record { path = codes "a.move"; meta = record { module_id = coins; imports = [] } ∷ [] }
    ∷ record {
      path = codes "b.move";
      meta = record { module_id = coins; imports = account ∷ [] } ∷ [];
    }
    ∷ []

store_meta-last_match_example :
    entry coins Index.chain_source
      (store_meta sample_files Index.chain_source (codes "chain_1") two_modules)
    ≡ Index.or_else
        (last_match coins Index.chain_source
          (file_modules sample_files Index.chain_source (codes "chain_1")))
        (entry coins Index.chain_source two_modules)
store_meta-last_match_example =
    store_meta-last_match sample_files Index.chain_source (codes "chain_1") two_modules coins
      Index.chain_source

two_modules-Consistent : Consistent two_modules
unfolding lookup
two_modules-Consistent = (((refl, refl), refl, tt), refl, (((refl, refl), refl, tt), refl, tt))

load-store_example :
    entry account Index.local_source (load (store two_modules))
    ≡ entry account Index.local_source two_modules
load-store_example = load-store two_modules account Index.local_source two_modules-Consistent

store_meta-Consistent_example :
    Consistent (store_meta sample_files Index.chain_source (codes "chain_1") two_modules)
store_meta-Consistent_example =
    store_meta-Consistent sample_files Index.chain_source (codes "chain_1") two_modules
      two_modules-Consistent
