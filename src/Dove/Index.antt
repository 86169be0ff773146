-- ===== src/Dove/Index.antt =====
-- The index of dove's modules: dove/src/index/mod.rs and store.rs.
pub mod Entries
pub mod Stored
pub mod Closure
use move_language_server.Base.{
  ℕ, zero, suc, ◌≡◌, ◌↔◌, refl, Bool, true, false, not, List, [], ◌∷◌, ◌++◌, Option, none, some,
  if◌then◌else◌,
}
use move_language_server.Base.Assoc.{Assoc, lookup, insert}
use move_language_server.Base.Classes.{Eq, eqb, pair_eq, nat_eq}
use move_language_server.Base.Text.{Bytes}
use move_language_server.Executor.Tags.{ModuleId, bytes_eq}
use move_language_server.Dove.Meta.{Imports, DefinitionMeta, insert_id, imported}

pub data SourceType : Type 0 where
  local_source git_source chain_source : SourceType

abbrev pub source_beq : SourceType → SourceType → Bool
source_beq local_source local_source = true
source_beq git_source git_source = true
source_beq chain_source chain_source = true
source_beq _ _ = false

pub source_beq_iff : (a b : SourceType) → (source_beq a b ≡ true) ↔ (a ≡ b)
source_beq_iff local_source local_source = (λ h. refl, λ e. refl)
source_beq_iff git_source git_source = (λ h. refl, λ e. refl)
source_beq_iff chain_source chain_source = (λ h. refl, λ e. refl)
source_beq_iff local_source git_source = (λ h. cc, λ e. cc)
source_beq_iff local_source chain_source = (λ h. cc, λ e. cc)
source_beq_iff git_source local_source = (λ h. cc, λ e. cc)
source_beq_iff git_source chain_source = (λ h. cc, λ e. cc)
source_beq_iff chain_source local_source = (λ h. cc, λ e. cc)
source_beq_iff chain_source git_source = (λ h. cc, λ e. cc)

instance abbrev pub source_eq : Eq SourceType
source_eq = record { beq = source_beq; beq_iff = source_beq_iff }

pub record Module : Type 0 where
  pub name : ModuleId
  pub dep_name : Bytes
  pub path : Bytes
  pub source_type : SourceType
  pub dependencies : Imports

pub record FileMeta : Type 0 where
  pub path : Bytes
  pub meta : List DefinitionMeta

abbrev pub ModulesIndex : Type 0
ModulesIndex = Assoc ModuleId (Assoc SourceType Module)

-- How a resolution ends; `failed` is an error, `out_of_fuel` is of the model alone.
pub data Answer {ℓ} (A : Type ℓ) : Type ℓ where
  done : A → Answer A
  failed : Answer A
  out_of_fuel : Answer A

infixl 5 ◌>>=◌
unfoldable pub ◌>>=◌ {ℓ κ} : {A : Type ℓ} {B : Type κ} → Answer A → (A → Answer B) → Answer B
done a >>= f = f a
failed >>= f = failed
out_of_fuel >>= f = out_of_fuel

abbrev pub or_else {ℓ} : {A : Type ℓ} → Option A → Option A → Option A
or_else none o = o
or_else (some a) o = some a

abbrev pub sources_or_empty : Option (Assoc SourceType Module) → Assoc SourceType Module
sources_or_empty none = []
sources_or_empty (some sources) = sources

-- The modules of one id, by source.
abbrev pub sources : ModuleId → ModulesIndex → Assoc SourceType Module
sources id modules = sources_or_empty (lookup id modules)

-- Local before git before chain.
unfoldable pub get_module : ModulesIndex → ModuleId → Option Module
get_module modules id =
    or_else (lookup local_source (sources id modules))
      (or_else (lookup git_source (sources id modules)) (lookup chain_source (sources id modules)))

-- `modules.entry(id).or_insert_with(HashMap::default).insert(source, module)`
unfoldable pub put : ModuleId → SourceType → Module → ModulesIndex → ModulesIndex
put id source m modules = insert id (insert source m (sources id modules)) modules

abbrev pub module_of : SourceType → Bytes → Bytes → DefinitionMeta → Module
module_of src_type dep_name path unit = record {
  name = unit.module_id;
  dep_name = dep_name;
  path = path;
  source_type = src_type;
  dependencies = unit.imports;
}

unfoldable pub store_units :
    SourceType → Bytes → Bytes → List DefinitionMeta → ModulesIndex → ModulesIndex
unfolding put
store_units src_type dep_name path [] modules = modules
store_units src_type dep_name path (unit ∷ units) modules =
    store_units src_type dep_name path units
      (put unit.module_id src_type (module_of src_type dep_name path unit) modules)

unfoldable pub store_meta : List FileMeta → SourceType → Bytes → ModulesIndex → ModulesIndex
unfolding store_units
store_meta [] src_type dep_name modules = modules
store_meta (file ∷ f_meta) src_type dep_name modules =
    store_meta f_meta src_type dep_name (store_units src_type dep_name file.path file.meta modules)

-- Index::load: the modules of the file, one after the other.
unfoldable pub load_modules : List Module → ModulesIndex → ModulesIndex
unfolding put
load_modules [] acc = acc
load_modules (m ∷ ms) acc = load_modules ms (put m.name m.source_type m acc)

unfoldable pub load : List Module → ModulesIndex
unfolding load_modules
load ms = load_modules ms []

abbrev pub values : Assoc SourceType Module → List Module
values [] = []
values ((source, m) ∷ rest) = m ∷ values rest

-- Index::store: all modules, in the order of the maps.
unfoldable pub store : ModulesIndex → List Module
store [] = []
store ((id, by_source) ∷ modules) = values by_source ++ store modules

-- HashSet::insert of paths
unfoldable pub has_path : Bytes → List Bytes → Bool
has_path p [] = false
has_path p (q ∷ paths) = if eqb q p then true else has_path p paths

unfoldable pub add_path : Bytes → List Bytes → List Bytes
unfolding has_path
add_path p paths = if has_path p paths then paths else p ∷ paths

-- The index and the dependencies found so far.
abbrev pub Found : Type 0
Found = ModulesIndex × List Bytes

-- `resolve_imports`, given what it does with the dependencies of a module.
abbrev pub Resolver : Type 0
Resolver = Imports → Found → Answer Found

-- `resolve`: whether the module is there.
unfoldable pub resolve : Resolver → ModuleId → Found → Answer (Bool × Found)
unfolding get_module add_path
resolve resolver import (modules, deps) = elim (get_module modules import) [
  | none ↦ done (false, (modules, deps))
  | some m ↦ resolver m.dependencies (modules, add_path m.path deps) >>= λ found. done (true, found)
]

unfoldable pub resolve_units : Resolver → List DefinitionMeta → Found → Answer Found
resolve_units resolver [] found = done found
resolve_units resolver (unit ∷ units) found =
    resolver unit.imports found >>= resolve_units resolver units

unfoldable pub resolve_files : Resolver → List FileMeta → Found → Answer Found
unfolding resolve_units
resolve_files resolver [] found = done found
resolve_files resolver (file ∷ files) found =
    resolve_units resolver file.meta found >>= resolve_files resolver files

-- `fetch` is what the chain has of a module: the name of the download and its metadata, if the
-- download succeeds.
module _ (fetch : ModuleId → Option (Bytes × List FileMeta)) where
  -- A second try, after a download.
  unfoldable pub resolve_again : Resolver → ModuleId → Found → Answer Found
  unfolding resolve
  resolve_again resolver import found =
      resolve resolver import found >>= λ (known, found1). if known then done found1 else failed

  unfoldable pub download : Resolver → ModuleId → Found → Answer Found
  unfolding resolve_files store_meta resolve_again
  download resolver import found = elim (fetch import) [
    | none ↦ failed
    | some (name, files_meta) ↦ resolve_files resolver files_meta found >>= λ (modules, deps).
        resolve_again resolver import (store_meta files_meta chain_source name modules, deps)
  ]

  unfoldable pub resolve_import : Resolver → ModuleId → Found → Answer Found
  unfolding resolve download
  resolve_import resolver import found = resolve resolver import found >>= λ (known, found1).
      elim known [ true ↦ done found1 | false ↦ download resolver import found1 ]

  unfoldable pub for_each : (ModuleId → Found → Answer Found) → Imports → Found → Answer Found
  for_each f [] found = done found
  for_each f (import ∷ imports) found = f import found >>= for_each f imports

  -- Each level of dependencies takes one unit of fuel.
  unfoldable pub resolve_imports : ℕ → Resolver
  unfolding for_each resolve_import
  resolve_imports zero imports found = out_of_fuel
  resolve_imports (suc fuel) imports found =
      for_each (resolve_import (resolve_imports fuel)) imports found

-- The modules and the imports of the sources.
unfoldable pub collect_units : List DefinitionMeta → Imports × Imports → Imports × Imports
unfolding insert_id
collect_units [] acc = acc
collect_units (unit ∷ units) (modules, imports) =
    collect_units units (insert_id unit.module_id modules, extend unit.imports imports)
  where
    extend : Imports → Imports → Imports
    extend [] acc = acc
    extend (i ∷ is) acc = extend is (insert_id i acc)

unfoldable pub collect_files : List FileMeta → Imports × Imports → Imports × Imports
unfolding collect_units
collect_files [] acc = acc
collect_files (file ∷ files) acc = collect_files files (collect_units file.meta acc)

unfoldable pub external : Imports → Imports → Imports
external modules [] = []
external modules (i ∷ imports) =
    let rest = external modules imports in if imported i modules then rest else i ∷ rest

-- make_dependency_set, for the metadata of the files of its paths.
unfoldable pub make_dependency_set :
    (ModuleId → Option (Bytes × List FileMeta)) → ℕ → List FileMeta → ModulesIndex → Answer Found
unfolding collect_files external resolve_imports
make_dependency_set fetch fuel files index =
    let (modules, imports) = collect_files files ([], []) in
    resolve_imports fetch fuel (external modules imports) (index, [])
