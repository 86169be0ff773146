-- ===== src/Disassembler/SourceText.antt =====
-- The texts of declarations and whole units: `Encode` of functions.rs, structs.rs, module.rs and
-- script.rs of lang/disassembler/src.
use move_language_server.Base.{ℕ, ◌+◌, List, [], ◌∷◌, ◌++◌, Option, none, some, if◌then◌else◌, map}
use move_language_server.Base.Assoc.{Assoc}
use move_language_server.Base.Text.{Bytes, codes}
use move_language_server.Disassembler.Imports.{ImportName, plain_name, alias, Imports}
use move_language_server.Disassembler.Types.{FType, FullStructName}
use move_language_server.Disassembler.Exp.{Param}
use move_language_server.Disassembler.Translator.Run.{Body}
use move_language_server.Disassembler.Text.{Printer, indent_step, body_text}
use move_language_server.Disassembler.Words.{
  write_array, angle_array, generic_text, type_text, struct_name_text, underscore, is_used,
  unless_zero, spaces, import_text, decimal,
}
use move_language_server.Disassembler.Source.{
  FunctionsDef, Field, StructDef, SourceUnit, script, module_source,
}

module _ (printer : Printer) where
  unfoldable pub param_text : List ℕ → Param → Bytes
  unfolding type_text is_used decimal
  param_text used p =
      underscore (is_used p.used used)
      ++ (codes "arg" ++ (unless_zero p.index ++ (codes ": " ++ type_text p.f_type)))

  abbrev pub used_of : Option Body → List ℕ
  used_of none = []
  used_of (some body) = body.used

  abbrev pub ret_types_text : List FType → Bytes
  ret_types_text [] = []
  ret_types_text (t ∷ []) = codes ": " ++ type_text t
  ret_types_text (t ∷ (u ∷ ts)) =
      codes ": " ++ write_array (codes "(") (codes ", ") (map type_text (t ∷ (u ∷ ts))) (codes ")")

  abbrev pub acquires_text : List FullStructName → Bytes
  acquires_text [] = []
  acquires_text (name ∷ names) =
      write_array (codes " acquires ") (codes ", ") (map struct_name_text (name ∷ names))
        (codes " ")

  abbrev pub optional_body_text : ℕ → Option Body → Bytes
  optional_body_text indent none = []
  optional_body_text indent (some body) =
      body_text printer body.used indent body.locals body.block_exps

  -- FunctionsDef::encode
  unfoldable pub function_text : ℕ → FunctionsDef → Bytes
  unfolding param_text body_text angle_array write_array
  function_text indent f =
      (spaces indent
        ++ ((if f.is_native then codes "native " else [])
            ++ ((if f.is_public then codes "public " else []) ++ (codes "fun " ++ f.name))))
      ++ (angle_array (map generic_text f.type_params)
          ++ (write_array (codes "(") (codes ", ") (map (param_text (used_of f.body)) f.params)
                (codes ")")
              ++ (ret_types_text f.ret
                  ++ (acquires_text f.acquires
                      ++ (if f.is_native
                          then codes ";"
                          else codes " {"
                            ++ (optional_body_text indent f.body
                                ++ (codes "\n" ++ (spaces indent ++ codes "}"))))))))

  unfoldable pub field_text : ℕ → Field → Bytes
  field_text indent field = spaces indent ++ (field.name ++ (codes ": " ++ type_text field.f_type))

  unfoldable pub fields_text : ℕ → List Field → Bytes
  unfolding field_text
  fields_text indent [] = []
  fields_text indent (field ∷ []) = field_text indent field ++ codes "\n"
  fields_text indent (field ∷ (next ∷ fields)) =
      field_text indent field ++ (codes ",\n" ++ fields_text indent (next ∷ fields))

  abbrev pub nominal_name : StructDef → Bytes
  nominal_name s =
      if s.is_nominal_resource
      then codes "resource struct"
      else if s.is_native
      then codes "native struct"
      else codes "struct"

  -- StructDef::encode
  unfoldable pub struct_text : ℕ → StructDef → Bytes
  unfolding fields_text angle_array
  struct_text indent s =
      spaces indent
      ++ (nominal_name s
          ++ (codes " "
              ++ (s.name
                  ++ (angle_array (map generic_text s.type_params)
                      ++ (if s.is_native
                          then codes ";"
                          else codes " {\n"
                            ++ (fields_text (indent + indent_step) s.fields
                                ++ (spaces indent ++ codes "}")))))))

  abbrev pub alias_text : ImportName → Bytes
  alias_text (plain_name name) = []
  alias_text (alias name id) = codes " as " ++ import_text (alias name id)

  unfoldable pub uses_text : ℕ → Bytes → Assoc ℕ ImportName → Bytes
  unfolding import_text
  uses_text indent name [] = []
  uses_text indent name ((addr, import) ∷ names) =
      (spaces indent
        ++ (codes "use 0x"
            ++ (printer.address_text addr
                ++ (codes "::" ++ (name ++ (alias_text import ++ codes ";\n"))))))
      ++ uses_text indent name names

  -- Imports::encode; the maps are in the order of their entries.
  unfoldable pub imports_text : ℕ → Imports → Bytes
  unfolding uses_text
  imports_text indent [] = []
  imports_text indent ((name, names) ∷ imports) =
      uses_text indent name names ++ imports_text indent imports

  unfoldable pub each_text {ℓ} : {A : Type ℓ} → (A → Bytes) → List A → Bytes
  each_text f [] = []
  each_text f (a ∷ items) = f a ++ (codes "\n\n" ++ each_text f items)

  abbrev pub line_unless_empty : Imports → Bytes
  line_unless_empty [] = []
  line_unless_empty (entry ∷ imports) = codes "\n"

  -- SourceUnit::write_code, over Script::encode and Module::encode.
  unfoldable pub write_code : SourceUnit → Bytes
  unfolding imports_text each_text struct_text function_text
  write_code (script imports function) =
      codes "script {\n"
      ++ (imports_text indent_step imports
          ++ (line_unless_empty imports ++ (function_text indent_step function ++ codes "}\n")))
  write_code (module_source name structs functions imports) =
      codes "module "
      ++ (name
          ++ (codes " {\n"
              ++ (imports_text indent_step imports
                  ++ (codes "\n"
                      ++ (each_text (struct_text indent_step) structs
                          ++ (each_text (function_text indent_step) functions ++ codes "}\n"))))))
