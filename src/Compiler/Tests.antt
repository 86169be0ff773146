-- ===== src/Compiler/Tests.antt =====
-- Runs of the source map, the line endings and the sender on small texts.
use mathlib.Core.Option
use move_language_server.Base.{
  ◌%◌, ◌^◌, take, drop, ℕ, ◌+◌, ◌≡◌, ◌<◌, ◌≤◌, refl, arith, false, List, [], ◌∷◌, none, some, map,
  length, get_elem?, All, Option, Option-cases, inl, inr, ap, length-append, length-take,
  length-drop, ◌++◌,
}
use move_language_server.Compiler.Addresses.{Codecs, bech32_into_libra, replace_bech32_addresses}
use move_language_server.Compiler.Addresses.Positions.{ReplacesFirst}
use move_language_server.Compiler.Addresses.Shorter.{replace_bech32_addresses-misplaces}
use move_language_server.Compiler.Flow.{
  build, from_parsing, as_address, from_check, transformed, check, Artifacts,
}
use move_language_server.Compiler.Parser.{
  ProvidedAccountAddress, MoveLang, ok, errors, Checked, MoveFile, normalize_source_text,
  parse_program,
}
use move_language_server.Compiler.Flow.Laws.{check-build, Agree}
use move_language_server.Compiler.Parser.Positions.{libra, normalize_source_text-origins}
use move_language_server.Base.Int.{as_usize, ◌+ℤ◌, negsuc}
use move_language_server.Base.Utf8.{encode, encode_char}
use move_language_server.Base.Text.{starts_with, Bytes, codes, find}
use move_language_server.Base.Assoc.{lookup, insert}
use move_language_server.Base.Find.{count, find-split}
use move_language_server.Compiler.SourceMap.{FileOffsetMap, empty_map, translate_pos}
use move_language_server.Compiler.SourceMap.Tracking.{translate_pos-origins}
use move_language_server.Compiler.SourceMap.Edits.{Edit, edit_layer, apply_edits, origins, fresh}
use move_language_server.Compiler.LineEndings.{normalize}
use move_language_server.Compiler.LineEndings.Laws.{unix, crlf_layers, normalize-unix}
use move_language_server.Compiler.LineEndings.Columns.{source, translate_pos_column}
use move_language_server.Compiler.Location.{File, position, is_boundary, get_range, char_count}
use move_language_server.Compiler.Location.Laws.{position_lem, position_returns}
use move_language_server.Compiler.SourceMap.Project.{
  replace_text, ProjectOffsetMap, Error, transform,
}
use move_language_server.Compiler.Sender.{replace_sender_placeholder, spaced_template}
use move_language_server.Compiler.Sender.Laws.{replace_sender_placeholder_returns}
use move_language_server.Compiler.Sender.Loop.{Replaces}

abbrev call_text : Bytes
call_text = codes "call({{sender}});"

abbrev sample_sender : Bytes
sample_sender = codes "0x1111111111111"

abbrev sample_edits : List Edit
sample_edits =
    record { at = 5; cut = 10; text = sample_sender }
    ∷ record { at = 0; cut = 0; text = codes "// " }
    ∷ []

abbrev sample_map : FileOffsetMap
sample_map = record { layers = map edit_layer sample_edits; address_replacements = [] }

translate_pos-origins_example :
    (translate_pos sample_map 23 ≡ 15)
    × (get_elem? (apply_edits sample_edits call_text) 23 ≡ get_elem? call_text 15)
unfolding origins fresh
translate_pos-origins_example =
    translate_pos-origins sample_edits call_text sample_map 23 15 refl
      (omega arith, omega arith, (omega arith, omega arith, omega arith)) refl

abbrev two_lines : List ℕ
two_lines = codes "a\r\nb\rc\n"

normalize-unix_example : normalize two_lines ≡ (
  unix false two_lines,
  record { layers = crlf_layers false 0 two_lines; address_replacements = [] },
)
normalize-unix_example = normalize-unix two_lines

abbrev no_chars : List ℕ
no_chars = []

abbrev empty_lines : List (List ℕ)
empty_lines = [] ∷ [] ∷ [] ∷ []

translate_pos_column_example :
    (get_elem? (encode (source empty_lines [] 97 (233 ∷ []))) (3 + length empty_lines) ≡ some 97)
    × (get_elem? (encode (normalize (source empty_lines [] 97 (233 ∷ []))).0) 3 ≡ some 97)
    × (length empty_lines ≤ length no_chars + 2
        → translate_pos (normalize (source empty_lines [] 97 (233 ∷ []))).1 3
          ≡ 3 + length empty_lines)
    × (length no_chars + 2 < length empty_lines
        → translate_pos (normalize (source empty_lines [] 97 (233 ∷ []))).1 3
          < 3 + length empty_lines)
translate_pos_column_example =
    translate_pos_column empty_lines [] 97 (233 ∷ []) 3 (tt, (tt, (tt, tt))) tt (omega arith)
      (tt, (tt, (tt, tt))) tt (omega arith) refl (omega arith)

abbrev spaced_text : Bytes
spaced_text = codes "call({{ sender }});"

replace_sender_placeholder_returns_example :
    (r : Bytes × FileOffsetMap) × (replace_sender_placeholder 10 spaced_text sample_sender empty_map
      ≡ some r)
    × (find spaced_template r.0 ≡ none)
unfolding count
replace_sender_placeholder_returns_example =
    replace_sender_placeholder_returns 10 spaced_text sample_sender empty_map (omega arith) refl
      (omega arith)

abbrev replaced_text : Bytes
replaced_text = codes "call(0x1111111111111);"

abbrev replaced_map : FileOffsetMap
replaced_map = record {
  layers = record { pos = 20; offset = negsuc 2 } ∷ [];
  address_replacements = [];
}

abbrev two_line_file : File
two_line_file = record { source = codes "ab\ncd\n"; line_starts = 0 ∷ 3 ∷ 6 ∷ [] }

position_lem_example :
    All (λ start. start ≤ 4) (take 2 two_line_file.line_starts)
    × All (λ start. 4 < start) (drop 2 two_line_file.line_starts)
    × ((start : ℕ) × (src : Bytes) × (get_elem? two_line_file.line_starts 1 ≡ some start)
        × (get_range two_line_file.source start 4 ≡ some src)
        × (1 ≡ char_count src % 2 ^ 32))
unfolding position
position_lem_example =
    position_lem two_line_file (3 ∷ 6 ∷ []) 4 1 1 refl
      ((omega arith, (omega arith, tt)), ((omega arith, tt), (tt, tt))) (omega arith) refl

position_returns_example : (found : ℕ × ℕ) × (position two_line_file 4 ≡ some found)
unfolding is_boundary
position_returns_example =
    position_returns two_line_file (3 ∷ 6 ∷ []) 4 refl
      ((omega arith, (omega arith, tt)), ((omega arith, tt), (tt, tt))) (omega arith)
      (refl, (refl, (refl, tt))) refl

abbrev sample_project : ProjectOffsetMap
sample_project =
    ("a.move", record sample_map { address_replacements = (codes "wallet1", codes "0x1") ∷ [] })
    ∷ []

abbrev sample_errors : List Error
sample_errors =
    ((record { file = "a.move"; span = record { start = 23; end = 24 } }, codes "in 0x1::M") ∷ [])
    ∷ []

abbrev sample_results : List Error
sample_results =
    ((record { file = "a.move"; span = record { start = 15; end = 16 } }, codes "in wallet1::M")
      ∷ [])
    ∷ []

transform_run : transform sample_project sample_errors ≡ some sample_results
unfolding transform lookup edit_layer starts_with as_usize ◌+ℤ◌
transform_run = refl

-- A finder of the address 0x1 and its digits.
abbrev find_one : Bytes → Option (ℕ × ℕ)
unfolding find
find_one s = Option.map (λ start. (start, 3)) (find (codes "0x1") s)

abbrev one_digits : Bytes → Bytes
one_digits orig = codes "00000000000000000000000000000001"

find_one-inside :
    (s : Bytes) (start len : ℕ)
    → find_one s ≡ some (start, len)
    → (start + len ≤ length s) × (len ≤ 34)
unfolding find_one
find_one-inside s start len h = elim (Option-cases (find (codes "0x1") s)) [
  | inl e ↦ let no : none ≡ some (start, len) = rw e at h in absurd (ground arith)
  | inr (i, e) ↦
      let same : some (i, 3) ≡ some (start, len) = rw e at h in
      let at_start : i ≡ start = cc same in
      let size : 3 ≡ len = cc same in
      let split = ap length (find-split (codes "0x1") s i (i + 3) refl e) in
      let longer = length-append (codes "0x1") (drop (i + 3) s) in
      (
        omega (
          arith,
          at_start,
          size,
          split,
          longer,
          length-append (take i s) (codes "0x1" ++ drop (i + 3) s),
          length-take i s,
          length-drop (i + 3) s,
        ),
        omega (arith, size),
      )
]

abbrev other_sender : ProvidedAccountAddress
other_sender = record {
  original = codes "0x2222222222222";
  normalized_original = codes "0x2222222222222";
  lowered = codes "0x2222222222222";
}

abbrev call_of_one : Bytes
call_of_one = codes "0x1::m({{sender}});"

normalize_source_text-origins_example :
    (s' : Bytes) × (m' : FileOffsetMap) × (normalize_source_text
        (libra find_one one_digits 1)
        10
        call_of_one
        (some other_sender)
      ≡ some (s', m'))
    × ((es fs : List Edit) × Replaces other_sender.normalized_original call_of_one es
        × ReplacesFirst find_one one_digits (apply_edits es (encode call_of_one)) fs
        × (s' ≡ apply_edits fs (apply_edits es (encode call_of_one)))
        × ((q p : ℕ)
            → get_elem? (origins (es ++ fs) (fresh 0 (length (encode call_of_one)))) q
              ≡ some (some p)
            → (translate_pos m' q ≡ p) × (get_elem? s' q ≡ get_elem? (encode call_of_one) p)))
unfolding count encode encode_char
normalize_source_text-origins_example =
    normalize_source_text-origins find_one one_digits 1 find_one-inside (λ orig. refl) 10
      call_of_one other_sender (ground arith) (omega arith) refl (omega arith) (omega arith)

-- Codecs that know one address of bech32.
abbrev wallet : Bytes
wallet = codes "wallet1qqqq"

abbrev sample_codecs : Codecs
unfolding find
sample_codecs = record {
  from_base58 = λ t. none;
  blake2b = λ t. t;
  encode_upper = λ t. codes "0001";
  hex_decode = λ t. none;
  from_hex_literal = λ t. none;
  bech32_decode = λ t. some [];
  convert_bits = λ t from to. some t;
  bech32_encode = λ hrp t. none;
  ss58_matches = λ t. [];
  bech32_matches =
      λ t. elim (find wallet t) [ none ↦ [] | some start ↦ (start + length wallet, wallet) ∷ [] ];
}

abbrev use_of_wallet : Bytes
use_of_wallet = codes "use wallet1qqqq::M;"

replace_bech32_addresses-misplaces_example :
    let (s', m') = replace_bech32_addresses sample_codecs use_of_wallet empty_map in
    (translate_pos m' 9 ≡ 9) × (get_elem? s' 9 ≡ get_elem? use_of_wallet 17)
unfolding find replace_text starts_with bech32_into_libra
replace_bech32_addresses-misplaces_example =
    replace_bech32_addresses-misplaces sample_codecs use_of_wallet (codes "use ") wallet
      (codes "0x1") (codes "::M;") 2 refl refl refl refl refl (omega arith)

-- A compiler that refuses every program.
abbrev no_units : MoveLang
no_units = record {
  from_hex_literal = λ t. some 1;
  Definition = Bytes;
  FileCommentMap = Unit {0};
  Program = Unit {0};
  CompiledUnit = Unit {0};
  no_comments = tt;
  strip_comments_and_verify = λ name t. ok (t, tt);
  parse_file_string = λ name t. ok (t ∷ []);
  check_program = λ parsed addr. elim parsed [
    | ok defs ↦
        errors (
          ((record { file = "a.move"; span = record { start = 0; end = 1 } }, codes "no") ∷ [])
          ∷ [])
    | errors es ↦ errors es
  ];
  translate_program = λ program. ok [];
}

abbrev as_it_is : Bytes → FileOffsetMap → Bytes × FileOffsetMap
as_it_is text map = (text, map)

abbrev sample_targets : List MoveFile
sample_targets = record { name = "a.move"; content = codes "script {}" } ∷ []

abbrev refused_errors : List Error
refused_errors =
    ((record { file = "a.move"; span = record { start = 0; end = 1 } }, codes "no") ∷ []) ∷ []

abbrev refused_artifacts : Artifacts as_it_is 0 no_units
refused_artifacts = record {
  files = ("a.move", codes "script {}") ∷ [];
  prog = errors refused_errors;
}

check-build_example :
    (c : Checked (Unit {0})) × (check as_it_is 0 no_units sample_targets [] none ≡ some c)
    × Agree as_it_is 0 no_units sample_targets [] none c (errors refused_errors)
unfolding build encode encode_char parse_program from_parsing as_address from_check transformed
    insert normalize as_usize transform lookup ◌+ℤ◌
check-build_example =
    check-build as_it_is 0 no_units sample_targets [] none (λ es addr. refl) refused_artifacts refl
