-- ===== src/Dove/Index/Entries.antt =====
-- The entries of the index: what a stored module is found by.
use move_language_server.Base.{
  ◌≡◌, refl, sym, ap, ◌∙◌, Bool, true, false, ◌&&◌, List, [], ◌∷◌, ◌++◌, Option, none, some,
  if◌then◌else◌, Bool-cases, inl, inr,
}
use move_language_server.Base.Assoc.{lookup, insert, lookup-insert}
use move_language_server.Base.Classes.{Eq, eqb, pair_eq, nat_eq}
use move_language_server.Base.Text.{Bytes}
use move_language_server.Executor.Tags.{ModuleId, bytes_eq}
use move_language_server.Dove.Meta.{DefinitionMeta}
use move_language_server.Dove.Index.{
  SourceType, source_eq, Module, FileMeta, ModulesIndex, or_else, sources_or_empty, sources, put,
  module_of, store_units, store_meta, load_modules,
}

-- The module of an id and a source.
abbrev pub entry : ModuleId → SourceType → ModulesIndex → Option Module
entry id source modules = lookup source (sources id modules)

-- Whether a place of the index is that of an id and a source.
abbrev pub same : ModuleId → SourceType → ModuleId → SourceType → Bool
same id source other other_source = eqb id other && eqb source other_source

abbrev pub only_if {ℓ} : {A : Type ℓ} → Bool → A → Option A
only_if true a = some a
only_if false a = none

pub eqb→≡ : {A : Type 0} ⦃e : Eq A⦄ (a b : A) → eqb a b ≡ true → a ≡ b
eqb→≡ ⦃e⦄ a b h = (e.beq_iff a b).0 h

entry_of_same :
    (id other : ModuleId) (source other_source : SourceType) (m : Module) (modules : ModulesIndex)
    → id ≡ other
    → (if eqb source other_source then some m else lookup other_source (sources id modules))
      ≡ or_else (only_if (eqb source other_source) m) (entry other other_source modules)
entry_of_same id other source other_source m modules h =
    elim (Bool-cases (eqb source other_source)) [
      | inl y ↦ rw y refl
      | inr n ↦ rw n (ap (λ i. lookup other_source (sources i modules)) h)
    ]

pub entry-put :
    (id other : ModuleId) (source other_source : SourceType) (m : Module) (modules : ModulesIndex)
    → entry other other_source (put id source m modules)
      ≡ or_else (only_if (same id source other other_source) m) (entry other other_source modules)
unfolding put
entry-put id other source other_source m modules =
    let outer =
      ap (λ o. lookup other_source (sources_or_empty o))
        (lookup-insert id other (insert source m (sources id modules)) modules) in
    elim (Bool-cases (eqb id other)) [
      | inr n ↦ rw outer (rw n refl)
      | inl y ↦ rw outer (
          rw y (
            lookup-insert source other_source m (sources id modules)
            ∙ entry_of_same id other source other_source m modules (eqb→≡ id other y)))
    ]

pub or_else_assoc :
    {A : Type 0} (a b c : Option A) → or_else (or_else a b) c ≡ or_else a (or_else b c)
or_else_assoc none b c = refl
or_else_assoc (some a) b c = refl

-- The last module of a list that has an id and a source.
unfoldable pub last_match : ModuleId → SourceType → List Module → Option Module
last_match id source [] = none
last_match id source (m ∷ ms) =
    or_else (last_match id source ms) (only_if (same m.name m.source_type id source) m)

pub entry-load_modules :
    (id : ModuleId) (source : SourceType) (ms : List Module) (acc : ModulesIndex)
    → entry id source (load_modules ms acc)
      ≡ or_else (last_match id source ms) (entry id source acc)
unfolding load_modules last_match
entry-load_modules id source [] acc = refl
entry-load_modules id source (m ∷ ms) acc =
    entry-load_modules id source ms (put m.name m.source_type m acc)
    ∙ ap (or_else (last_match id source ms)) (entry-put m.name id m.source_type source m acc)
    ∙ sym (or_else_assoc (last_match id source ms) _ _)

-- The modules of metadata, in their order.
unfoldable pub unit_modules : SourceType → Bytes → Bytes → List DefinitionMeta → List Module
unit_modules src_type dep_name path [] = []
unit_modules src_type dep_name path (unit ∷ units) =
    module_of src_type dep_name path unit ∷ unit_modules src_type dep_name path units

unfoldable pub file_modules : List FileMeta → SourceType → Bytes → List Module
unfolding unit_modules
file_modules [] src_type dep_name = []
file_modules (file ∷ f_meta) src_type dep_name =
    unit_modules src_type dep_name file.path file.meta ++ file_modules f_meta src_type dep_name

load_modules-append :
    (xs ys : List Module) (acc : ModulesIndex)
    → load_modules (xs ++ ys) acc ≡ load_modules ys (load_modules xs acc)
unfolding load_modules
load_modules-append [] ys acc = refl
load_modules-append (x ∷ xs) ys acc = load_modules-append xs ys (put x.name x.source_type x acc)

store_units-load_modules :
    (src_type : SourceType) (dep_name path : Bytes) (units : List DefinitionMeta)
    (modules : ModulesIndex)
    → store_units src_type dep_name path units modules
      ≡ load_modules (unit_modules src_type dep_name path units) modules
unfolding store_units load_modules unit_modules
store_units-load_modules src_type dep_name path [] modules = refl
store_units-load_modules src_type dep_name path (unit ∷ units) modules =
    store_units-load_modules src_type dep_name path units _

pub store_meta-load_modules :
    (f_meta : List FileMeta) (src_type : SourceType) (dep_name : Bytes) (modules : ModulesIndex)
    → store_meta f_meta src_type dep_name modules
      ≡ load_modules (file_modules f_meta src_type dep_name) modules
unfolding store_meta load_modules file_modules
store_meta-load_modules [] src_type dep_name modules = refl
store_meta-load_modules (file ∷ f_meta) src_type dep_name modules =
    store_meta-load_modules f_meta src_type dep_name _
    ∙ ap (load_modules (file_modules f_meta src_type dep_name))
        (store_units-load_modules src_type dep_name file.path file.meta modules)
    ∙ sym (load_modules-append (unit_modules src_type dep_name file.path file.meta) _ modules)

-- After metadata is stored, each id and source has the last module that the metadata gives for
-- it, or else what it had before.
pub store_meta-last_match :
    (f_meta : List FileMeta) (src_type : SourceType) (dep_name : Bytes) (modules : ModulesIndex)
    (id : ModuleId) (source : SourceType)
    → entry id source (store_meta f_meta src_type dep_name modules)
      ≡ or_else
          (last_match id source (file_modules f_meta src_type dep_name))
          (entry id source modules)
store_meta-last_match f_meta src_type dep_name modules id source =
    ap (entry id source) (store_meta-load_modules f_meta src_type dep_name modules)
    ∙ entry-load_modules id source (file_modules f_meta src_type dep_name) modules
