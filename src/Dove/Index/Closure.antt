-- ===== src/Dove/Index/Closure.antt =====
-- What the resolution of imports finds, and when it ends.
use mathlib.Core.Path.{subst}
use move_language_server.Base.{
  ℕ, zero, suc, ◌≤◌, ◌<◌, ◌≡◌, refl, sym, ap, ◌∙◌, arith, Bool, true, false, List, [], ◌∷◌, Option,
  some, All, Bool-cases, inl, inr, ◌⊎◌, ◌↔◌,
}
use move_language_server.Base.Classes.{eqb}
use move_language_server.Base.Text.{Bytes}
use move_language_server.Executor.Tags.{ModuleId, bytes_eq}
use move_language_server.Dove.Meta.{Imports}
use move_language_server.Dove.Index.{
  Module, FileMeta, ModulesIndex, Answer, done, out_of_fuel, ◌>>=◌, get_module, Found, resolve,
  resolve_import, download, for_each, resolve_imports, has_path, add_path,
}

abbrev pub In : Bytes → List Bytes → Type 0
In p [] = ⊥
In p (q ∷ paths) = (q ≡ p) ⊎ In p paths

has_path-In : (p : Bytes) (paths : List Bytes) → has_path p paths ≡ true → In p paths
unfolding has_path
has_path-In p [] h = cc
has_path-In p (q ∷ paths) h = elim (Bool-cases (eqb q p)) [
  | inl y ↦ inl ((bytes_eq.beq_iff q p).0 y)
  | inr n ↦ inr (has_path-In p paths (rw n at h))
]

add_path-In : (p q : Bytes) (paths : List Bytes) → In q (add_path p paths) ↔ ((p ≡ q) ⊎ In q paths)
unfolding add_path
add_path-In p q paths = elim (Bool-cases (has_path p paths)) [
  | inl y ↦
      rw (y, add_path)
        (
          λ h. inr h,
          λ (h : (p ≡ q) ⊎ In q paths). elim h [
            | inl e ↦ subst (λ r. In r paths) e (has_path-In p paths y)
            | inr r ↦ r
          ],
        )
  | inr n ↦ rw (n, add_path) (λ h. h, λ h. h)
]

-- The path of a module that some import leads to.
pub data Reach (modules : ModulesIndex) : Imports → Bytes → Type 0 where
  here :
      {id : ModuleId} {ids : Imports} (m : Module)
      → get_module modules id ≡ some m
      → Reach modules (id ∷ ids) m.path
  below :
      {id : ModuleId} {ids : Imports} {p : Bytes} (m : Module)
      → get_module modules id ≡ some m
      → Reach modules m.dependencies p
      → Reach modules (id ∷ ids) p
  later :
      {id : ModuleId} {ids : Imports} {p : Bytes} → Reach modules ids p → Reach modules (id ∷ ids) p

Reach-nil : (modules : ModulesIndex) (p : Bytes) → ¬ Reach modules [] p
Reach-nil modules p h = elim h [ ]

some-injective : {A : Type 0} {a b : A} → some a ≡ some b → a ≡ b
some-injective h = cc

Reach-cons :
    (modules : ModulesIndex) (id : ModuleId) (ids : Imports) (m : Module) (p : Bytes)
    → get_module modules id ≡ some m
    → Reach modules (id ∷ ids) p
    → (m.path ≡ p) ⊎ (Reach modules m.dependencies p ⊎ Reach modules ids p)
Reach-cons modules id ids m _ e (here n f) = inl (ap (λ x. x.path) (some-injective (sym e ∙ f)))
Reach-cons modules id ids m p e (below n f r) =
    inr (inl (subst (λ x. Reach modules x.dependencies p) (some-injective (sym f ∙ e)) r))
Reach-cons modules id ids m p e (later r) = inr (inr r)

abbrev pub Known : ModulesIndex → ModuleId → Type 0
Known modules id = (m : Module) × (get_module modules id ≡ some m)

-- The modules of an index only depend on modules of the index, and not in circles: a rank falls
-- along each dependency.
abbrev pub Ranked : ModulesIndex → (ModuleId → ℕ) → Type 0
Ranked modules rank =
    (id : ModuleId) (m : Module)
    → get_module modules id ≡ some m
    → All (λ d. Known modules d × (rank d < rank id)) m.dependencies

-- An answer that leaves the index alone, and whose paths are those before and those that the
-- imports lead to.
pub record Resolved (modules : ModulesIndex) (ids : Imports) (deps : List Bytes)
    (answer : Answer Found) : Type 0 where
  pub paths : List Bytes
  pub answer_eq : answer ≡ done (modules, paths)
  pub paths_iff : (p : Bytes) → In p paths ↔ (In p deps ⊎ Reach modules ids p)

module _ (fetch : ModuleId → Option (Bytes × List FileMeta)) (modules : ModulesIndex)
    (rank : ModuleId → ℕ) (ranked : Ranked modules rank) where
  abbrev Fits : ℕ → Imports → Type 0
  Fits fuel ids = All (λ id. Known modules id × (suc (rank id) < fuel)) ids

  Fits-dependencies :
      (bound fuel : ℕ) (ids : Imports)
      → suc bound ≤ fuel
      → All (λ d. Known modules d × (rank d < bound)) ids
      → Fits fuel ids
  Fits-dependencies bound fuel [] h a = tt
  Fits-dependencies bound fuel (id ∷ ids) h ((k, r), a) =
      ((k, omega arith), Fits-dependencies bound fuel ids h a)

  joined_paths :
      (id : ModuleId) (ids : Imports) (m : Module) (deps paths paths' : List Bytes) (p : Bytes)
      → get_module modules id ≡ some m
      → (In p paths ↔ (In p (add_path m.path deps) ⊎ Reach modules m.dependencies p))
      → (In p paths' ↔ (In p paths ⊎ Reach modules ids p))
      → In p paths' ↔ (In p deps ⊎ Reach modules (id ∷ ids) p)
  joined_paths id ids m deps paths paths' p e first second = (
    λ h. elim (second.0 h) [
      | inr r ↦ inr (later r)
      | inl i ↦ elim (first.0 i) [
        | inr r ↦ inr (below m e r)
        | inl j ↦ elim ((add_path-In m.path p deps).0 j) [
          | inl q ↦ inr (subst (Reach modules (id ∷ ids)) q (here m e))
          | inr k ↦ inl k
        ]
      ]
    ],
    λ h. elim h [
      | inl k ↦ second.1 (inl (first.1 (inl ((add_path-In m.path p deps).1 (inr k)))))
      | inr r ↦ elim (Reach-cons modules id ids m p e r) [
        | inl q ↦ second.1 (inl (first.1 (inl ((add_path-In m.path p deps).1 (inl q)))))
        | inr (inl d) ↦ second.1 (inl (first.1 (inr d)))
        | inr (inr l) ↦ second.1 (inr l)
      ]
    ],
  )

  module _ (fuel : ℕ)
      (enough : (ids : Imports) (deps : List Bytes)
        → Fits fuel ids
        → 0 < fuel
        → Resolved modules ids deps (resolve_imports fetch fuel ids (modules, deps))) where
    known_resolve :
        (id : ModuleId) (m : Module) (deps paths : List Bytes)
        → get_module modules id ≡ some m
        → resolve_imports fetch fuel m.dependencies (modules, add_path m.path deps)
          ≡ done (modules, paths)
        → resolve (resolve_imports fetch fuel) id (modules, deps) ≡ done (true, (modules, paths))
    unfolding ◌>>=◌ resolve
    known_resolve id m deps paths e f = rw (e, resolve) (rw f refl)

    abbrev after_first : ModuleId → Bool × Found → Answer Found
    after_first id (known, found1) = elim known [
      | true ↦ done found1
      | false ↦ download fetch (resolve_imports fetch fuel) id found1
    ]

    known_import :
        (id : ModuleId) (m : Module) (deps paths : List Bytes)
        → get_module modules id ≡ some m
        → resolve_imports fetch fuel m.dependencies (modules, add_path m.path deps)
          ≡ done (modules, paths)
        → resolve_import fetch (resolve_imports fetch fuel) id (modules, deps)
          ≡ done (modules, paths)
    unfolding resolve_import ◌>>=◌
    known_import id m deps paths e f =
        ap (λ a. a >>= after_first id) (known_resolve id m deps paths e f)

    each :
        (ids : Imports) (deps : List Bytes)
        → Fits (suc fuel) ids
        → Resolved modules ids deps
            (for_each fetch (resolve_import fetch (resolve_imports fetch fuel)) ids (modules, deps))
    unfolding for_each ◌>>=◌
    each [] deps fits = record {
      paths = deps;
      answer_eq = refl;
      paths_iff = λ p. (
        λ h. inl h,
        λ (h : In p deps ⊎ Reach modules [] p). elim h [
          | inl i ↦ i
          | inr r ↦ absurd (Reach-nil modules p r)
        ],
      );
    }
    each (id ∷ ids) deps (((m, e), r), fits) =
        let first =
          enough m.dependencies (add_path m.path deps)
            (Fits-dependencies (rank id) fuel m.dependencies (omega arith) (ranked id m e))
            (omega arith) in
        let second = each ids first.paths fits in
        record {
          paths = second.paths;
          answer_eq =
              ap (λ a. a >>= for_each fetch (resolve_import fetch (resolve_imports fetch fuel)) ids)
                (known_import id m deps first.paths e first.answer_eq)
              ∙ second.answer_eq;
          paths_iff = λ p.
              joined_paths id ids m deps first.paths second.paths p e (first.paths_iff p)
                (second.paths_iff p);
        }

  -- In an index that has all dependencies of its modules, without circles, the resolution of
  -- imports that it has returns, for fuel beyond the ranks: it downloads nothing, leaves the index
  -- as it is, and finds the paths of just those modules that the imports lead to.
  pub resolve_imports-Resolved :
      (fuel : ℕ) (ids : Imports) (deps : List Bytes)
      → Fits fuel ids
      → 0 < fuel
      → Resolved modules ids deps (resolve_imports fetch fuel ids (modules, deps))
  unfolding resolve_imports
  resolve_imports-Resolved zero ids deps fits h = absurd (omega arith)
  resolve_imports-Resolved (suc fuel) ids deps fits h =
      each fuel (resolve_imports-Resolved fuel) ids deps fits

abbrev pub AnyOf : (ModuleId → Type 0) → Imports → Type 0
AnyOf Inside [] = ⊥
AnyOf Inside (id ∷ ids) = Inside id ⊎ AnyOf Inside ids

-- An index that has the dependencies of its modules.
abbrev pub Closed : ModulesIndex → Type 0
Closed modules =
    (id : ModuleId) (m : Module)
    → get_module modules id ≡ some m
    → All (Known modules) m.dependencies

-- Modules of an index that each depend on one of them.
abbrev pub Circle : ModulesIndex → (ModuleId → Type 0) → Type 0
Circle modules Inside =
    (id : ModuleId)
    → Inside id
    → (m : Module) × (get_module modules id ≡ some m) × AnyOf Inside m.dependencies

module _ (fetch : ModuleId → Option (Bytes × List FileMeta)) (modules : ModulesIndex)
    (closed : Closed modules) where
  abbrev resolver : ℕ → Imports → Found → Answer Found
  resolver fuel = resolve_imports fetch fuel

  -- Without downloads the resolution of modules that are known runs out of fuel or leaves the index as it
  -- is.
  abbrev Keeps : Answer Found → Type 0
  Keeps answer = (answer ≡ out_of_fuel) ⊎ ((deps : List Bytes) × (answer ≡ done (modules, deps)))

  -- One import, by what the resolution of its dependencies answers.
  import_by :
      (fuel : ℕ) (id : ModuleId) (m : Module) (deps : List Bytes)
      → get_module modules id ≡ some m
      → Keeps (resolver fuel m.dependencies (modules, add_path m.path deps))
      → resolve_import fetch (resolver fuel) id (modules, deps)
        ≡ resolver fuel m.dependencies (modules, add_path m.path deps)
  unfolding resolve_import resolve ◌>>=◌
  import_by fuel id m deps e (inl h) = rw (e, resolve) (rw h refl)
  import_by fuel id m deps e (inr (paths, h)) = rw (e, resolve) (rw h refl)

  module _ (fuel : ℕ)
      (below : (ids : Imports) (deps : List Bytes)
        → All (Known modules) ids
        → Keeps (resolver fuel ids (modules, deps))) where
    each-Keeps :
        (ids : Imports) (deps : List Bytes)
        → All (Known modules) ids
        → Keeps (for_each fetch (resolve_import fetch (resolver fuel)) ids (modules, deps))
    unfolding for_each ◌>>=◌
    each-Keeps [] deps known = inr (deps, refl)
    each-Keeps (id ∷ ids) deps ((m, e), known) =
        let kept = below m.dependencies (add_path m.path deps) (closed id m e) in
        let first = import_by fuel id m deps e kept in
        elim kept [
          | inl h ↦ inl (rw first (rw h refl))
          | inr (paths, h) ↦ rw first (rw h (each-Keeps ids paths known))
        ]

    module _ (Inside : ModuleId → Type 0) (circle : Circle modules Inside)
        (stuck : (ids : Imports) (deps : List Bytes)
          → All (Known modules) ids
          → AnyOf Inside ids
          → resolver fuel ids (modules, deps) ≡ out_of_fuel) where
      each_stuck :
          (ids : Imports) (deps : List Bytes)
          → All (Known modules) ids
          → AnyOf Inside ids
          → for_each fetch (resolve_import fetch (resolver fuel)) ids (modules, deps) ≡ out_of_fuel
      unfolding for_each ◌>>=◌
      each_stuck [] deps known i = absurd i
      each_stuck (id ∷ ids) deps ((m, e), known) (inl i) =
          let (n, f, j) = circle id i in
          let same : n ≡ m = some-injective (sym f ∙ e) in
          let kept = below m.dependencies (add_path m.path deps) (closed id m e) in
          let first = import_by fuel id m deps e kept in
          let ends =
            stuck m.dependencies (add_path m.path deps) (closed id m e)
              (subst (λ x. AnyOf Inside x.dependencies) same j) in
          rw first (rw ends refl)
      each_stuck (id ∷ ids) deps ((m, e), known) (inr i) =
          let kept = below m.dependencies (add_path m.path deps) (closed id m e) in
          let first = import_by fuel id m deps e kept in
          elim kept [
            | inl h ↦ rw first (rw h refl)
            | inr (paths, h) ↦ rw first (rw h (each_stuck ids paths known i))
          ]

  resolve_imports-Keeps :
      (fuel : ℕ) (ids : Imports) (deps : List Bytes)
      → All (Known modules) ids
      → Keeps (resolver fuel ids (modules, deps))
  unfolding resolve_imports
  resolve_imports-Keeps zero ids deps known = inl refl
  resolve_imports-Keeps (suc fuel) ids deps known =
      each-Keeps fuel (resolve_imports-Keeps fuel) ids deps known

  -- In an index that has all dependencies of its modules, take modules of which each depends on one of
  -- them, in whatever place of its dependencies. The resolution of known imports among which is one
  -- of these modules does not return with any fuel.
  pub resolve_imports_circle :
      (Inside : ModuleId → Type 0)
      → Circle modules Inside
      → (fuel : ℕ) (ids : Imports) (deps : List Bytes) → All (Known modules) ids
      → AnyOf Inside ids
      → resolve_imports fetch fuel ids (modules, deps) ≡ out_of_fuel
  unfolding resolve_imports
  resolve_imports_circle Inside circle zero ids deps known i = refl
  resolve_imports_circle Inside circle (suc fuel) ids deps known i =
      each_stuck fuel (resolve_imports-Keeps fuel) Inside circle
        (resolve_imports_circle Inside circle fuel) ids deps known i
