-- ===== src/Disassembler/Imports/Laws.antt =====
-- An import name stands for one module.
use mathlib.Core.Path.{subst}
use move_language_server.Base.{
  ℕ, suc, ◌+◌, ◌<◌, ◌==◌, ◌≡◌, refl, sym, ap, ◌∙◌, arith, List, [], ◌∷◌, none, some, length,
  if◌then◌else◌, Bool-cases, Option-cases, inl, inr, ◌⊎◌,
}
use move_language_server.Base.Assoc.{Assoc, lookup, insert, remove, lookup-insert}
use move_language_server.Base.Classes.{Eq, nat_eq}
use move_language_server.Base.Text.{Bytes}
use move_language_server.Executor.Tags.{bytes_eq}
use move_language_server.Disassembler.Outcome.{ok, >>=-eq-ok}
use move_language_server.Disassembler.Unit.{
  CompiledUnit, ModuleHandle, identifier, address, self_module_handle_idx, module_handles,
}
use move_language_server.Disassembler.Imports.{
  ImportName, plain_name, alias, Imports, name_map, or_empty, add_import, is_self, add_handles,
  new_imports, get_import,
}

abbrev pub number : ImportName → ℕ
number (plain_name name) = 0
number (alias name k) = k

abbrev pub module_of : ImportName → Bytes
module_of (plain_name name) = name
module_of (alias name k) = name

ok-injective : {A : Type 0} {a b : A} → ok a ≡ ok b → a ≡ b
ok-injective h = cc

some-injective : {A : Type 0} {a b : A} → some a ≡ some b → a ≡ b
some-injective h = cc

insert_cases :
    {K : Type 0} {V : Type 0} ⦃e : Eq K⦄ (k j : K) (v : V) (m : Assoc K V) (w : V)
    → lookup j (insert k v m) ≡ some w
    → ((k ≡ j) × (v ≡ w)) ⊎ (lookup j m ≡ some w)
insert_cases ⦃e⦄ k j v m w h =
    let g = rw (lookup-insert k j v m) at h in
    elim (Bool-cases (e.beq k j)) [
      | inl y ↦ inl ((e.beq_iff k j).0 y, some-injective (rw y at g))
      | inr n ↦ inr (rw n at g)
    ]

-- The names that the addresses of one module name have.
pub record Numbered (name : Bytes) (names : Assoc ℕ ImportName) : Type 0 where
  pub below :
      (a : ℕ) (i : ImportName)
      → lookup a names ≡ some i
      → (module_of i ≡ name) × (number i < length names)
  pub apart :
      (a b : ℕ) (i j : ImportName)
      → lookup a names ≡ some i
      → lookup b names ≡ some j
      → number i ≡ number j
      → a ≡ b

abbrev pub Named : Imports → Type 0
Named imports = (name : Bytes) → Numbered name (name_map imports name)

length-remove :
    {V : Type 0} (k : ℕ) (m : Assoc ℕ V) → lookup k m ≡ none → length (remove k m) ≡ length m
unfolding lookup remove
length-remove k [] h = refl
length-remove k ((j, v) ∷ m) h = elim (Bool-cases (j == k)) [
  | inl y ↦ absurd (ground arith)
  | inr n ↦ rw n (ap suc (length-remove k m (ground arith)))
]

abbrev fresh_name : Bytes → ℕ → ImportName
fresh_name name count = if count == 0 then plain_name name else alias name count

fresh-number :
    (name : Bytes) (count : ℕ)
    → (module_of (fresh_name name count) ≡ name) × (number (fresh_name name count) ≡ count)
fresh-number name count = elim (Bool-cases (count == 0)) [
  | inl y ↦ rw y (refl, ground arith)
  | inr n ↦ rw n (refl, refl)
]

module _ (name : Bytes) (addr : ℕ) (names : Assoc ℕ ImportName) (numbered : Numbered name names)
    (absent : lookup addr names ≡ none) where
  abbrev added : Assoc ℕ ImportName
  added = insert addr (fresh_name name (length names)) names

  length-added : length added ≡ suc (length names)
  unfolding insert
  length-added = ap suc (length-remove addr names absent)

  added-Numbered : Numbered name added
  added-Numbered = record {
    below = λ a i h. elim (insert_cases addr a _ names i h) [
      | inl (e, f) ↦ (
        rw (← f) (fresh-number name (length names)).0,
        rw (← f) (omega (arith, length-added, (fresh-number name (length names)).1)),
      )
      | inr f ↦ let (p, q) = numbered.below a i f in (p, omega (arith, length-added, q))
    ];
    apart = λ a b i j h g e. elim (insert_cases addr a _ names i h) [
      | inl (x, f) ↦ elim (insert_cases addr b _ names j g) [
        | inl (y, k) ↦ sym x ∙ y
        | inr k ↦ absurd (
            omega (
              arith,
              (numbered.below b j k).1,
              (fresh-number name (length names)).1,
              ap number f,
              e,
            ))
      ]
      | inr f ↦ elim (insert_cases addr b _ names j g) [
        | inl (y, k) ↦ absurd (
            omega (
              arith,
              (numbered.below a i f).1,
              (fresh-number name (length names)).1,
              ap number k,
              e,
            ))
        | inr k ↦ numbered.apart a b i j f k e
      ]
    ];
  }

insert-Named :
    (name : Bytes) (names : Assoc ℕ ImportName) (imports : Imports)
    → Numbered name names
    → Named imports
    → Named (insert name names imports)
insert-Named name names imports numbered named other =
    let e = ap or_empty (lookup-insert name other names imports) in
    elim (Bool-cases (bytes_eq.beq name other)) [
      | inl y ↦
          rw e (rw y (subst (λ n. Numbered n names) ((bytes_eq.beq_iff name other).0 y) numbered))
      | inr n ↦ rw e (rw n (named other))
    ]

add_import-Named :
    (name : Bytes) (addr : ℕ) (imports : Imports)
    → Named imports
    → Named (add_import name addr imports)
unfolding add_import
add_import-Named name addr imports named =
    let names = name_map imports name in
    elim (Option-cases (lookup addr names)) [
      | inl n ↦
          rw (n, add_import)
            (insert-Named name _ imports (added-Numbered name addr names (named name) n) named)
      | inr (i, y) ↦ rw (y, add_import) (insert-Named name names imports (named name) named)
    ]

add_handles-Named :
    (unit : CompiledUnit) (index : ℕ) (handles : List ModuleHandle) (imports result : Imports)
    → Named imports
    → add_handles unit index handles imports ≡ ok result
    → Named result
unfolding add_handles
add_handles-Named unit index [] imports result named h = subst Named (ok-injective h) named
add_handles-Named unit index (handler ∷ handles) imports result named h =
    elim (Bool-cases (is_self (self_module_handle_idx unit) index)) [
      | inl y ↦
          add_handles-Named unit (index + 1) handles imports result named (rw (y, add_handles) at h)
      | inr n ↦
          let (module_name, _, h1) =
            >>=-eq-ok (identifier unit handler.name) _ (rw (n, add_handles) at h) in
          let (addr, _, h2) = >>=-eq-ok (address unit handler.address) _ h1 in
          add_handles-Named unit (index + 1) handles _ result
            (add_import-Named module_name addr imports named) h2
    ]

empty-Named : Named []
unfolding lookup
empty-Named name = record { below = λ a i h. absurd (cc h); apart = λ a b i j h g e. absurd (cc h) }

pub get_import-name_map :
    (imports : Imports) (addr : ℕ) (name : Bytes) (i : ImportName)
    → get_import imports addr name ≡ some i
    → lookup addr (name_map imports name) ≡ some i
unfolding get_import
get_import-name_map imports addr name i h = elim (Option-cases (lookup name imports)) [
  | inl n ↦ absurd (cc (rw (n, get_import) at h))
  | inr (names, y) ↦ rw y (rw (y, get_import) at h)
]

-- The names of a unit's imports, each module name for itself.
pub new_imports-Named :
    (unit : CompiledUnit) (imports : Imports) → new_imports unit ≡ ok imports → Named imports
unfolding new_imports
new_imports-Named unit imports h =
    add_handles-Named unit 0 (module_handles unit) [] imports empty-Named h
