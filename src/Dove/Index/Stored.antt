-- ===== src/Dove/Index/Stored.antt =====
-- The index on the disk: what is stored is loaded again.
use mathlib.Core.Path.{subst}
use move_language_server.Base.{
  ◌≡◌, refl, sym, ap, ◌∙◌, Bool, true, false, ◌&&◌, List, [], ◌∷◌, ◌++◌, Option, none, some,
  if◌then◌else◌, Bool-cases, inl, inr,
}
use move_language_server.Base.Assoc.{Assoc, lookup, insert, remove, lookup-remove, beq_refl}
use move_language_server.Base.Classes.{Eq, eqb, pair_eq, nat_eq}
use move_language_server.Base.Text.{Bytes}
use move_language_server.Executor.Tags.{ModuleId, bytes_eq}
use move_language_server.Dove.Index.{
  SourceType, source_eq, Module, FileMeta, ModulesIndex, or_else, sources, put, store_meta,
  load_modules, load, store, values,
}
use move_language_server.Dove.Index.Entries.{
  eqb→≡, entry, same, only_if, last_match, or_else_assoc, entry-load_modules, file_modules,
  store_meta-load_modules,
}

-- Each source once, and each module at its own place.
abbrev pub SourcesFit : ModuleId → Assoc SourceType Module → Type 0
SourcesFit id [] = Unit
SourcesFit id ((source, m) ∷ rest) =
    ((m.name ≡ id) × (m.source_type ≡ source)) × (lookup source rest ≡ none) × SourcesFit id rest

-- Each id once.
abbrev pub Consistent : ModulesIndex → Type 0
Consistent [] = Unit
Consistent ((id, by_source) ∷ modules) =
    SourcesFit id by_source × (lookup id modules ≡ none) × Consistent modules

or_else-none : {A : Type 0} (o : Option A) → or_else o none ≡ o
or_else-none none = refl
or_else-none (some a) = refl

last_match-append :
    (id : ModuleId) (source : SourceType) (xs ys : List Module)
    → last_match id source (xs ++ ys) ≡ or_else (last_match id source ys) (last_match id source xs)
unfolding last_match
last_match-append id source [] ys = sym (or_else-none (last_match id source ys))
last_match-append id source (x ∷ xs) ys =
    ap (λ o. or_else o (only_if (same x.name x.source_type id source) x))
      (last_match-append id source xs ys)
    ∙ or_else_assoc (last_match id source ys) _ _

-- One entry before others, for the tests of its id and its source.
match_step :
    (b c : Bool) (m : Module) (o : Option Module)
    → (c ≡ true → o ≡ none)
    → or_else (if b then o else none) (only_if (b && c) m)
      ≡ (if b then (if c then some m else o) else none)
match_step false c m o h = refl
match_step true true m o h = rw (h refl) refl
match_step true false m o h = or_else-none o

absent_at :
    {V : Type 0} (k j : SourceType) (m : Assoc SourceType V)
    → lookup k m ≡ none
    → eqb k j ≡ true
    → lookup j m ≡ none
absent_at k j m h e = subst (λ i. lookup i m ≡ none) ((source_eq.beq_iff k j).0 e) h

last_match-values :
    (id other : ModuleId) (source : SourceType) (by_source : Assoc SourceType Module)
    → SourcesFit other by_source
    → last_match id source (values by_source)
      ≡ (if eqb other id then lookup source by_source else none)
unfolding last_match lookup
last_match-values id other source [] fits = elim (Bool-cases (eqb other id)) [
  | inl y ↦ rw y refl
  | inr n ↦ rw n refl
]
last_match-values id other source ((s, m) ∷ rest) ((e, f), g, fits) =
    ap (λ o. or_else o (only_if (same m.name m.source_type id source) m))
      (last_match-values id other source rest fits)
    ∙ ap
        (λ (n : ModuleId).
          or_else (if eqb other id then lookup source rest else none)
            (only_if (same n m.source_type id source) m))
        e
    ∙ ap
        (λ (n : SourceType).
          or_else (if eqb other id then lookup source rest else none)
            (only_if (same other n id source) m))
        f
    ∙ match_step (eqb other id) (eqb s source) m (lookup source rest) (absent_at s source rest g)

last_match-store :
    (id : ModuleId) (source : SourceType) (modules : ModulesIndex)
    → Consistent modules
    → last_match id source (store modules) ≡ entry id source modules
unfolding last_match store lookup
last_match-store id source [] fits = refl
last_match-store id source ((other, by_source) ∷ modules) (inner, absent, fits) =
    last_match-append id source (values by_source) (store modules)
    ∙ ap (or_else (last_match id source (store modules)))
        (last_match-values id other source by_source inner)
    ∙ ap (λ o. or_else o (if eqb other id then lookup source by_source else none))
        (last_match-store id source modules fits)
    ∙ elim (Bool-cases (eqb other id)) [
      | inr n ↦ rw n (or_else-none (entry id source modules))
      | inl y ↦
          let gone : lookup id modules ≡ none =
            subst (λ i. lookup i modules ≡ none) (eqb→≡ other id y) absent in
          rw (y, gone) refl
    ]

-- An index that is stored and loaded again has the same module for each id and source.
pub load-store :
    (modules : ModulesIndex) (id : ModuleId) (source : SourceType)
    → Consistent modules
    → entry id source (load (store modules)) ≡ entry id source modules
unfolding load lookup
load-store modules id source fits =
    entry-load_modules id source (store modules) []
    ∙ or_else-none (last_match id source (store modules))
    ∙ last_match-store id source modules fits

module _ {K : Type 0} {V : Type 0} ⦃e : Eq K⦄ where
  absent-remove : (s k : K) (m : Assoc K V) → lookup s m ≡ none → lookup s (remove k m) ≡ none
  absent-remove s k m h =
      lookup-remove k s m ∙ elim (Bool-cases (e.beq k s)) [ inl y ↦ rw y refl | inr n ↦ rw n h ]

  removed : (k : K) (m : Assoc K V) → lookup k (remove k m) ≡ none
  removed k m = lookup-remove k k m ∙ rw (beq_refl k) refl

remove-SourcesFit :
    (id : ModuleId) (k : SourceType) (by_source : Assoc SourceType Module)
    → SourcesFit id by_source
    → SourcesFit id (remove k by_source)
unfolding remove
remove-SourcesFit id k [] fits = tt
remove-SourcesFit id k ((s, m) ∷ rest) (p, absent, fits) = elim (Bool-cases (eqb s k)) [
  | inl y ↦ rw y (remove-SourcesFit id k rest fits)
  | inr n ↦ rw n (p, absent-remove s k rest absent, remove-SourcesFit id k rest fits)
]

remove-Consistent :
    (k : ModuleId) (modules : ModulesIndex) → Consistent modules → Consistent (remove k modules)
unfolding remove
remove-Consistent k [] fits = tt
remove-Consistent k ((id, by_source) ∷ modules) (inner, absent, fits) =
    elim (Bool-cases (eqb id k)) [
      | inl y ↦ rw y (remove-Consistent k modules fits)
      | inr n ↦ rw n (inner, absent-remove id k modules absent, remove-Consistent k modules fits)
    ]

sources-SourcesFit :
    (id : ModuleId) (modules : ModulesIndex)
    → Consistent modules
    → SourcesFit id (sources id modules)
unfolding lookup
sources-SourcesFit id [] fits = tt
sources-SourcesFit id ((other, by_source) ∷ modules) (inner, absent, fits) =
    elim (Bool-cases (eqb other id)) [
      | inl y ↦ rw y (subst (λ i. SourcesFit i by_source) (eqb→≡ other id y) inner)
      | inr n ↦ rw n (sources-SourcesFit id modules fits)
    ]

put-Consistent :
    (m : Module) (modules : ModulesIndex)
    → Consistent modules
    → Consistent (put m.name m.source_type m modules)
unfolding put insert
put-Consistent m modules fits =
    let by_source = sources m.name modules in
    (
      (
        (refl, refl),
        removed m.source_type by_source,
        remove-SourcesFit m.name m.source_type by_source (sources-SourcesFit m.name modules fits),
      ),
      removed m.name modules,
      remove-Consistent m.name modules fits,
    )

load_modules-Consistent :
    (ms : List Module) (acc : ModulesIndex) → Consistent acc → Consistent (load_modules ms acc)
unfolding load_modules
load_modules-Consistent [] acc fits = fits
load_modules-Consistent (m ∷ ms) acc fits = load_modules-Consistent ms _ (put-Consistent m acc fits)

-- Storing metadata keeps an index consistent: each id and each source once, each module at its
-- own place.
pub store_meta-Consistent :
    (f_meta : List FileMeta) (src_type : SourceType) (dep_name : Bytes) (modules : ModulesIndex)
    → Consistent modules
    → Consistent (store_meta f_meta src_type dep_name modules)
store_meta-Consistent f_meta src_type dep_name modules fits =
    rw (store_meta-load_modules f_meta src_type dep_name modules)
      (load_modules-Consistent (file_modules f_meta src_type dep_name) modules fits)
