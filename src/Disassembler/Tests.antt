-- ===== src/Disassembler/Tests.antt =====
-- The disassembler on a small module.
use move_language_server.Base.{
  true, false, ℕ, ◌+◌, ◌≡◌, ◌≢◌, refl, arith, List, [], ◌∷◌, Option, none, some, map, length, All,
}
use move_language_server.Base.Text.{Bytes, codes}
use move_language_server.Disassembler.Outcome.{ok, out_of_fuel, if_let, ◌>>=◌, at_index}
use move_language_server.Disassembler.Unit
use move_language_server.Disassembler.Unit.{CompiledUnit, Tables}
use move_language_server.Disassembler.Imports.{
  Imports, ImportName, plain_name, alias, get_import, new_imports, add_handles, add_import,
}
use move_language_server.Disassembler.Imports.Texts.{new_imports_apart}
use move_language_server.Disassembler.Exp.Ranges.{InRange}
use move_language_server.Disassembler.Exp.Parts.{indexes, indexes-InRange}
use move_language_server.Base.Assoc
use move_language_server.Disassembler.Source
use move_language_server.Disassembler.SourceText
use move_language_server.Disassembler.Words
use move_language_server.Disassembler.Types
use move_language_server.Disassembler.Translator
use move_language_server.Disassembler.Translator.Run
use move_language_server.Disassembler.Translator.Build
use move_language_server.Disassembler.Types.{
  primitive, Generic, simple_prefix, extract_type_params, type_params_from,
}
use move_language_server.Disassembler.Unit.{Kind, all_kind, resource_kind}
use move_language_server.Disassembler.Text
use move_language_server.Disassembler.Text.{Printer, body_text}
use move_language_server.Disassembler.Words.{decimal}
use move_language_server.Disassembler.Text.Laws.{extract_type_params_apart}
use move_language_server.Disassembler.Text.Negation.{body_text-negation}
use move_language_server.Disassembler.Exp
use move_language_server.Disassembler.Exp.{
  Bytecode, Local, param, var, ExpLoc, at, more_exps, no_exps,
}
use move_language_server.Disassembler.Translator.{
  Setting, new_translator, new_iterator, module_import, local_var,
}
use move_language_server.Disassembler.Translator.Run.{translate, new_body, Body}
use move_language_server.Disassembler.Translator.Ends.Loop.{translate_ends}
use move_language_server.Disassembler.Translator.Trees.{
  Tree, leaf, binary_tree, call_tree, more_trees, no_trees, u64_leaf, copy_leaf, compile, shown,
  marks, Fits, Callee,
}
use move_language_server.Disassembler.Translator.Trees.{unary_tree, not_of}
use move_language_server.Disassembler.Source.{SourceUnit, module_source, make_source_unit}
use move_language_server.Disassembler.SourceText.{write_code}
use move_language_server.Disassembler.Source.Light.{full, light, light_unit, make_source_unit-light}
use move_language_server.Disassembler.Translator.Trees.Steps.{at_position}
use move_language_server.Disassembler.Translator.Trees.Laws.{translate-compile}
use move_language_server.Disassembler.Translator.Trees.Assembly.{
  assemble_all, assemble_all-new_body, Named,
}

abbrev sample_tables : Tables
sample_tables = record {
  module_handles = record { address = 0; name = 0 } ∷ [];
  struct_handles = [];
  function_handles =
      record { module_idx = 0; name = 1; parameters = 0; return_idx = 0; type_parameters = [] }
      ∷ [];
  function_instantiations = [];
  signatures = (Unit.u64_token ∷ Unit.u64_token ∷ []) ∷ [];
  identifiers = codes "M" ∷ codes "f" ∷ [];
  address_identifiers = 1 ∷ [];
  constant_pool = [];
}

abbrev sample_script : Unit.ScriptInfo
sample_script = record {
  code = record { locals = 0; code = Exp.ret_code ∷ [] };
  type_parameters = [];
  parameters = 0;
}

abbrev sample_imports : Imports
sample_imports = (codes "M", (1, plain_name (codes "M")) ∷ []) ∷ []

abbrev argument : Local
argument = param (record { used = 0; index = 0; f_type = primitive (codes "u64") })

abbrev no_offset : Bytecode → Option ℕ
no_offset opcode = none

abbrev sample_setting : Setting
sample_setting = record {
  unit = Unit.script_unit sample_tables sample_script;
  imports = sample_imports;
  locals = argument ∷ [];
  type_params = [];
  ret_len = 1;
  branch_offset = no_offset;
}

-- M::f(arg, 5) == arg + 1
abbrev sample_tree : Tree
sample_tree =
    binary_tree Exp.eq
      (call_tree 0 (some (plain_name (codes "M"))) (codes "f")
        (more_trees (leaf (copy_leaf 0 argument)) (more_trees (leaf (u64_leaf 5)) no_trees)))
      (binary_tree Exp.add (leaf (copy_leaf 0 argument)) (leaf (u64_leaf 1)))

sample-Callee : Callee sample_setting 0 (some (plain_name (codes "M"))) (codes "f") 2
unfolding at_index module_import get_import Assoc.lookup ◌>>=◌
sample-Callee = record {
  handler = record {
    module_idx = 0;
    name = 1;
    parameters = 0;
    return_idx = 0;
    type_parameters = [];
  };
  parameters = Unit.u64_token ∷ Unit.u64_token ∷ [];
  handle = record { address = 0; name = 0 };
  handler_eq = refl;
  name_eq = refl;
  parameters_eq = refl;
  handle_eq = refl;
  import_eq = refl;
  length_eq = refl;
}

sample-Fits : Fits sample_setting sample_tree
unfolding Fits local_var at_index
sample-Fits = ((sample-Callee, (refl, (tt, tt))), (refl, tt))

abbrev loop_code : List Bytecode
loop_code =
    Exp.ld_true_code
    ∷ Exp.br_true_code 3
    ∷ Exp.branch_code 4
    ∷ Exp.branch_code 0
    ∷ Exp.ret_code
    ∷ []

translate_ends_example :
    translate sample_setting 6 (new_translator (new_iterator loop_code) [] 5) ≢ out_of_fuel
translate_ends_example =
    translate_ends sample_setting 6 (new_translator (new_iterator loop_code) [] 5) (omega arith)

translate-compile_example :
    translate sample_setting
      (length (compile sample_tree []) + 1)
      (at_position [] 9 (compile sample_tree (Exp.pop_code ∷ [])) 2 (at 1 Exp.nop_exp ∷ []) [])
    ≡ translate sample_setting 1 (
        at_position [] 9
          (Exp.pop_code ∷ [])
          (2 + length (compile sample_tree []))
          (shown 2 sample_tree ∷ at 1 Exp.nop_exp ∷ [])
          (marks sample_tree []))
unfolding compile
translate-compile_example =
    translate-compile sample_setting [] 9 sample_tree 2 1 (Exp.pop_code ∷ [])
      (at 1 Exp.nop_exp ∷ []) [] sample-Fits (omega arith) (omega arith)

abbrev sample_local_index : Local → ℕ
sample_local_index l = 0

abbrev sample_call_index : Option ImportName → Bytes → ℕ
sample_call_index import name = 0

sample-Named : Named sample_local_index sample_call_index sample_tree
unfolding Named
sample-Named = ((refl, (refl, (tt, tt))), (refl, tt))

assemble_all-new_body_example :
    (body : Body) × (new_body sample_setting (compile sample_tree (Exp.ret_code ∷ [])) ≡ ok body)
    × (assemble_all sample_local_index sample_call_index body.block_exps []
        ≡ compile sample_tree (Exp.ret_code ∷ []))
assemble_all-new_body_example =
    assemble_all-new_body sample_local_index sample_call_index sample_setting sample_tree
      sample-Fits sample-Named refl

-- Two modules M at different addresses, and N.
abbrev three_modules : CompiledUnit
three_modules =
    Unit.script_unit
      (record sample_tables {
        module_handles =
            record { address = 0; name = 0 }
            ∷ record { address = 1; name = 0 }
            ∷ record { address = 1; name = 1 }
            ∷ [];
        address_identifiers = 1 ∷ 2 ∷ [];
      })
      sample_script

abbrev three_imports : Imports
three_imports =
    (codes "f", (2, plain_name (codes "f")) ∷ [])
    ∷ (codes "M", (2, alias (codes "M") 1) ∷ (1, plain_name (codes "M")) ∷ [])
    ∷ []

three_imports_lem : new_imports three_modules ≡ ok three_imports
unfolding new_imports add_handles add_import ◌>>=◌ at_index Assoc.lookup Assoc.insert Assoc.remove
three_imports_lem = refl

second_import : get_import three_imports 2 (codes "M") ≡ some (alias (codes "M") 1)
unfolding get_import Assoc.lookup
second_import = refl

new_imports_apart_example : ◌≡◌ {A = ℕ} 2 2 × (codes "M" ≡ codes "M")
new_imports_apart_example =
    new_imports_apart three_modules three_imports 2 2 (codes "M") (codes "M") (alias (codes "M") 1)
      (alias (codes "M") 1) three_imports_lem second_import second_import (omega arith, tt)
      (omega arith, tt) refl

abbrev sum : ExpLoc
sum = at 4 (Exp.binary_exp (at 2 Exp.nop_exp) Exp.add (at 3 Exp.nop_exp))

indexes-InRange_example : All (InRange (some (Exp.range sum))) (indexes sum)
indexes-InRange_example = indexes-InRange sum

abbrev sample_kinds : List Kind
sample_kinds = all_kind ∷ resource_kind ∷ []

abbrev second_param : Generic
second_param = record { prefix = simple_prefix (codes "T"); index = 1; kind = resource_kind }

extract_type_params_apart_example : ◌≡◌ {A = ℕ} 1 1
unfolding extract_type_params type_params_from
extract_type_params_apart_example =
    extract_type_params_apart sample_kinds (simple_prefix (codes "T")) 1 1 second_param second_param
      refl refl refl

abbrev sample_printer : Printer
sample_printer = record { debug = λ opcode. []; address_text = decimal; hex_text = λ bytes. [] }

body_text-negation_example :
    (a : Body) × (b : Body) × (new_body sample_setting (
        compile
          (unary_tree not_of (binary_tree Exp.eq (leaf (copy_leaf 0 argument)) (leaf (u64_leaf 1))))
          (Exp.ret_code ∷ []))
      ≡ ok a)
    × (new_body sample_setting (
          compile
            (binary_tree Exp.eq
              (unary_tree not_of (leaf (copy_leaf 0 argument)))
              (leaf (u64_leaf 1)))
            (Exp.ret_code ∷ []))
        ≡ ok b)
    × (body_text sample_printer a.used 0 a.locals a.block_exps
        ≡ body_text sample_printer b.used 0 b.locals b.block_exps)
unfolding Fits local_var at_index
body_text-negation_example =
    body_text-negation sample_printer 0 sample_setting (copy_leaf 0 argument) Exp.eq
      (leaf (u64_leaf 1)) refl tt refl

-- A module M with `public fun f(arg: u64, arg1: u64)`, whose code only returns.
abbrev sample_unit : CompiledUnit
sample_unit =
    Unit.module_unit
      (record sample_tables {
        signatures = (Unit.u64_token ∷ Unit.u64_token ∷ []) ∷ [] ∷ [];
        function_handles =
            record {
              module_idx = 0;
              name = 1;
              parameters = 0;
              return_idx = 1;
              type_parameters = [];
            }
            ∷ [];
      })
      (record {
        self_module_handle_idx = 0;
        struct_defs = [];
        struct_def_instantiations = [];
        field_handles = [];
        field_instantiations = [];
        function_defs =
            record {
              function = 0;
              is_public = true;
              is_native = false;
              acquires_global_resources = [];
              code = some (record { locals = 1; code = Exp.ret_code ∷ [] });
            }
            ∷ [];
      })

abbrev sample_params : List Exp.Param
sample_params =
    record { used = 0; index = 0; f_type = primitive (codes "u64") }
    ∷ record { used = 1; index = 1; f_type = primitive (codes "u64") }
    ∷ []

abbrev sample_source : SourceUnit
sample_source =
    module_source (codes "M") []
      (record {
        is_public = true;
        is_native = false;
        name = codes "f";
        type_params = [];
        ret = [];
        params = sample_params;
        acquires = [];
        body = some (record {
          block_exps = more_exps (at 0 (Exp.ret_exp no_exps false)) no_exps;
          locals = map param sample_params;
          used = [];
        });
      }
        ∷ [])
      []

sample_source_lem : make_source_unit no_offset sample_unit 0 full ≡ ok sample_source
unfolding make_source_unit new_imports add_handles Unit.self_id ◌>>=◌ at_index if_let
    Source.new_module Source.new_structs Source.new_functions Source.new_function Source.params_of
    Source.params_from Source.optional_body Source.body_of Source.acquired Types.signature_types
    Types.extract_type_signature extract_type_params type_params_from Run.new_locals Run.vars
    new_body translate Run.next_exp Build.ret Build.pops Translator.pop_exp Translator.in_order
sample_source_lem = refl

make_source_unit-light_example :
    make_source_unit no_offset sample_unit 0 light ≡ ok (light_unit sample_source)
make_source_unit-light_example =
    make_source_unit-light no_offset sample_unit 0 sample_source sample_source_lem

sample_text :
    write_code sample_printer (light_unit sample_source)
    ≡ codes "module M {\n\n    public fun f(_arg: u64, _arg1: u64) {\n        abort 1\n    }\n\n}\n"
unfolding write_code SourceText.function_text SourceText.param_text SourceText.imports_text
    SourceText.each_text SourceText.struct_text Text.body_text Text.lets_text Text.text
    Text.local_text Text.ld_text Words.type_text Words.write_array Words.joined Words.angle_array
    Text.line_start Text.line_end Words.decimal Words.digits Words.is_used Words.prefix_text
sample_text = refl
