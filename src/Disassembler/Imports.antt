-- ===== src/Disassembler/Imports.antt =====
-- lang/disassembler/src/imports.rs: the names under which a unit's modules are imported.
pub mod Laws
pub mod Texts
use move_language_server.Base.{
  ℕ, ◌+◌, ◌==◌, Bool, true, false, List, [], ◌∷◌, Option, none, some, if◌then◌else◌, length,
}
use move_language_server.Base.Assoc.{Assoc, lookup, insert}
use move_language_server.Base.Classes.{nat_eq}
use move_language_server.Base.Text.{Bytes}
use move_language_server.Executor.Tags.{bytes_eq}
use move_language_server.Disassembler.Outcome.{Outcome, ok, ◌>>=◌}
use move_language_server.Disassembler.Unit.{
  CompiledUnit, ModuleHandle, module_handles, identifier, address, self_module_handle_idx,
}

pub data ImportName : Type 0 where
  plain_name : Bytes → ImportName
  alias : Bytes → ℕ → ImportName

-- By module name, and then by address.
abbrev pub Imports : Type 0
Imports = Assoc Bytes (Assoc ℕ ImportName)

abbrev pub or_empty : Option (Assoc ℕ ImportName) → Assoc ℕ ImportName
or_empty none = []
or_empty (some names) = names

abbrev pub name_map : Imports → Bytes → Assoc ℕ ImportName
name_map imports name = or_empty (lookup name imports)

-- The entry of one handle: the first address of a name has the plain name, a later one an alias
-- with the number of addresses so far; an address that is there keeps its entry.
unfoldable pub add_import : Bytes → ℕ → Imports → Imports
add_import name addr imports =
    let names = name_map imports name in
    let count = length names in
    let import = if count == 0 then plain_name name else alias name count in
    elim (lookup addr names) [
      | some _ ↦ insert name names imports
      | none ↦ insert name (insert addr import names) imports
    ]

abbrev pub is_self : Option ℕ → ℕ → Bool
is_self none index = false
is_self (some own) index = own == index

unfoldable pub add_handles : CompiledUnit → ℕ → List ModuleHandle → Imports → Outcome Imports
unfolding add_import
add_handles unit index [] imports = ok imports
add_handles unit index (handler ∷ handles) imports =
    elim (is_self (self_module_handle_idx unit) index) [
      | true ↦ add_handles unit (index + 1) handles imports
      | false ↦ do
        module_name ← identifier unit handler.name
        addr ← address unit handler.address
        add_handles unit (index + 1) handles (add_import module_name addr imports)
    ]

-- Imports::new
unfoldable pub new_imports : CompiledUnit → Outcome Imports
unfolding add_handles
new_imports unit = add_handles unit 0 (module_handles unit) []

unfoldable pub get_import : Imports → ℕ → Bytes → Option ImportName
get_import imports addr name = elim (lookup name imports) [
  | none ↦ none
  | some names ↦ lookup addr names
]
