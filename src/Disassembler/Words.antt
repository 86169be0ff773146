-- ===== src/Disassembler/Words.antt =====
-- The trait `Encode` of lang/disassembler/src for names, types, operators and flags.
use move_language_server.Base.{
  ℕ, zero, suc, ◌+◌, ◌/◌, ◌%◌, ◌==◌, ◌||◌, Bool, false, List, [], ◌∷◌, ◌++◌, Option, none, some,
  if◌then◌else◌, ltb, replicate, map,
}
use move_language_server.Base.Text.{Bytes, codes}
use move_language_server.Disassembler.Imports.{ImportName, plain_name, alias}
use move_language_server.Disassembler.Types.{
  GenericPrefix, simple_prefix, generated, Generic, FullStructName, FType, generic_type, primitive,
  ref_type, ref_mut_type, vec_type, struct_type, struct_inst, FTypes, no_ftypes, more_ftypes,
}
use move_language_server.Disassembler.Unit.{Kind, all_kind, resource_kind, copyable_kind}
use move_language_server.Disassembler.Exp.{
  Op, CastType, u8_type, u64_type, u128_type, BuildIn, exists_fn, move_from, move_to, borrow_global,
  borrow_global_mut, LocAccess, move_access, copy_access, add, sub, mul, mod_op, div, bit_or,
  bit_and, xor, or_op, and_op, eq, neq, lt, gt, le, ge, shl, shr,
}

-- The decimal digits of a number; its own size is fuel enough.
unfoldable pub digits : ℕ → ℕ → Bytes
digits zero n = []
digits (suc fuel) n =
    let rest = digits fuel (n / 10) in
    if ltb n 10 then (48 + n) ∷ [] else rest ++ ((48 + n % 10) ∷ [])

unfoldable pub decimal : ℕ → Bytes
unfolding digits
decimal n = digits (n + 1) n

-- A number that is left out where it is zero.
abbrev pub unless_zero : ℕ → Bytes
unless_zero n = if n == 0 then [] else decimal n

abbrev pub spaces : ℕ → Bytes
spaces n = replicate n 32

-- The items of `write_array`, with what stands between them.
unfoldable pub joined : Bytes → List Bytes → Bytes
joined delimiter [] = []
joined delimiter (item ∷ []) = item
joined delimiter (item ∷ (next ∷ items)) = item ++ (delimiter ++ joined delimiter (next ∷ items))

unfoldable pub write_array : Bytes → Bytes → List Bytes → Bytes → Bytes
unfolding joined
write_array prefix delimiter items suffix = prefix ++ (joined delimiter items ++ suffix)

-- Nothing for an empty list.
unfoldable pub angle_array : List Bytes → Bytes
unfolding write_array
angle_array [] = []
angle_array (item ∷ items) = write_array (codes "<") (codes ", ") (item ∷ items) (codes ">")

unfoldable pub import_text : ImportName → Bytes
unfolding decimal
import_text (plain_name name) = name
import_text (alias name id) = name ++ (codes "_" ++ decimal id)

abbrev pub qualifier : Option ImportName → Bytes
qualifier none = []
qualifier (some import) = import_text import ++ codes "::"

-- FullStructName
abbrev pub struct_name_text : FullStructName → Bytes
struct_name_text name = qualifier name.import ++ name.name

-- StructName of the calls of built-in functions: nothing stands between the module and the name.
abbrev pub build_in_name_text : FullStructName → Bytes
build_in_name_text name = import_or_nothing name.import ++ name.name
  where
    import_or_nothing : Option ImportName → Bytes
    import_or_nothing none = []
    import_or_nothing (some import) = import_text import

unfoldable pub prefix_text : GenericPrefix → Bytes
unfolding decimal
prefix_text (simple_prefix p) = p
prefix_text (generated p) = codes "TYPE" ++ decimal p

-- GenericName
abbrev pub generic_name_text : Generic → Bytes
generic_name_text g = prefix_text g.prefix ++ unless_zero g.index

abbrev pub kind_text : Kind → Bytes
kind_text all_kind = []
kind_text resource_kind = codes ": resource"
kind_text copyable_kind = codes ": copyable"

-- Generic
abbrev pub generic_text : Generic → Bytes
generic_text g = generic_name_text g ++ kind_text g.kind

unfoldable mutual
  unfolding import_text prefix_text angle_array decimal

  pub type_text : FType → Bytes
  type_text (primitive name) = name
  type_text (generic_type type_param) = generic_name_text type_param
  type_text (ref_type t) = codes "&" ++ type_text t
  type_text (ref_mut_type t) = codes "&mut " ++ type_text t
  type_text (vec_type t) = codes "vector<" ++ (type_text t ++ codes ">")
  type_text (struct_type name) = struct_name_text name
  type_text (struct_inst name generics) = struct_name_text name ++ angle_array (type_texts generics)

  pub type_texts : FTypes → List Bytes
  type_texts no_ftypes = []
  type_texts (more_ftypes t ts) = type_text t ∷ type_texts ts

abbrev pub types_text : List FType → Bytes
types_text types = angle_array (map type_text types)

abbrev pub op_text : Op → Bytes
op_text add = codes " + "
op_text sub = codes " - "
op_text mul = codes " * "
op_text mod_op = codes " % "
op_text div = codes " / "
op_text bit_or = codes " | "
op_text bit_and = codes " & "
op_text xor = codes " ^ "
op_text or_op = codes " || "
op_text and_op = codes " && "
op_text eq = codes " == "
op_text neq = codes " != "
op_text lt = codes " < "
op_text gt = codes " > "
op_text le = codes " <= "
op_text ge = codes " >= "
op_text shl = codes " << "
op_text shr = codes " >> "

abbrev pub cast_text : CastType → Bytes
cast_text u8_type = codes "u8"
cast_text u64_type = codes "u64"
cast_text u128_type = codes "u128"

abbrev pub build_in_text : BuildIn → Bytes
build_in_text exists_fn = codes "exists"
build_in_text move_from = codes "move_from"
build_in_text move_to = codes "move_to"
build_in_text borrow_global = codes "borrow_global"
build_in_text borrow_global_mut = codes "borrow_global_mut"

abbrev pub access_text : LocAccess → Bytes
access_text move_access = codes "move"
access_text copy_access = codes "copy"

unfoldable pub is_used : ℕ → List ℕ → Bool
is_used flag [] = false
is_used flag (u ∷ used) = u == flag || is_used flag used

abbrev pub underscore : Bool → Bytes
underscore used = if used then [] else codes "_"
