-- ===== src/Compiler/Flow/Laws.antt =====
-- The checker against the builder.
use move_language_server.Base.{ℕ, ◌≡◌, refl, ◌∙◌, List, Option, some, >>=-eq-some, ◌⊎◌, inl, inr}
use move_language_server.Compiler.SourceMap.Project.{ProjectOffsetMap, Error, transform}
use move_language_server.Compiler.Flow.{
  and_then, transformed, forget, as_address, from_parsing, from_check, stop_on_errors, compile,
  check, build, Artifacts,
}
use move_language_server.Compiler.Parser.{
  Checked, ok, errors, MoveFile, ProvidedAccountAddress, MoveLang, ReplaceAddresses, ParserArtifact,
  parse_program,
}

Checked-cases :
    {A : Type 0} (c : Checked A) → ((a : A) × (c ≡ ok a)) ⊎ ((es : List Error) × (c ≡ errors es))
Checked-cases (ok a) = inl (a, refl)
Checked-cases (errors es) = inr (es, refl)

transformed-errors :
    {A B : Type 0} (offsets_map : ProjectOffsetMap) (es : List Error) {r : Checked A}
    → transformed {A = A} offsets_map (errors es) ≡ some r
    → (es' : List Error) × (r ≡ errors es')
      × (transformed {A = B} offsets_map (errors es) ≡ some (errors es'))
unfolding transformed
transformed-errors offsets_map es h =
    let (es', e, k) = >>=-eq-some (transform offsets_map es) _ h in (es', cc, rw e refl)

module _ (replace_addresses : ReplaceAddresses) (fuel : ℕ) (move_lang : MoveLang) where
  open move_lang use {check_program, CompiledUnit}

  module _ (targets deps : List MoveFile) (sender : Option ProvidedAccountAddress) where
    -- What a build that returned has gone through.
    build-eq-some :
        (arts : Artifacts replace_addresses fuel move_lang)
        → build replace_addresses fuel move_lang targets deps sender ≡ some arts
        → (artifact : ParserArtifact replace_addresses fuel move_lang) × (addr : Option ℕ)
          × (parse_program replace_addresses fuel move_lang targets deps sender ≡ some artifact)
          × (as_address replace_addresses fuel move_lang sender ≡ some addr)
          × (transformed
                (artifact.meta).offsets_map
                (and_then (check_program artifact.result addr) move_lang.translate_program)
              ≡ some arts.prog)
    unfolding build compile from_parsing from_check
    build-eq-some arts h =
        let (artifact, parsed, h1) =
          >>=-eq-some (parse_program replace_addresses fuel move_lang targets deps sender) _ h in
        let (addr, addressed, h2) =
          >>=-eq-some (as_address replace_addresses fuel move_lang sender) _ h1 in
        let (prog, e, h3) = >>=-eq-some (transformed _ _) _ h2 in
        (artifact, addr, parsed, addressed, e ∙ cc)

    -- The parser and the compiler's check find no error, and the answer is the translation's.
    pub record CheckedBefore (prog : Checked (List CompiledUnit)) : Type 0 where
      pub artifact : ParserArtifact replace_addresses fuel move_lang
      pub addr : Option ℕ
      pub parsed :
          parse_program replace_addresses fuel move_lang targets deps sender ≡ some artifact
      pub addressed : as_address replace_addresses fuel move_lang sender ≡ some addr
      pub definitions : List move_lang.Definition × List move_lang.Definition
      pub program : move_lang.Program
      pub parsed_ok : artifact.result ≡ ok definitions
      pub checked_ok : check_program (ok definitions) addr ≡ ok program
      pub translated :
          transformed (artifact.meta).offsets_map (move_lang.translate_program program) ≡ some prog

    -- A checker's answer beside a build: its errors are the build's, and without errors what is left to
    -- the build is the translation.
    abbrev pub Agree : Checked (Unit {0}) → Checked (List CompiledUnit) → Type 0
    Agree (ok _) prog = CheckedBefore prog
    Agree (errors es) prog = prog ≡ errors es

    module _ (artifact : ParserArtifact replace_addresses fuel move_lang) (addr : Option ℕ)
        (parsed : parse_program replace_addresses fuel move_lang targets deps sender
          ≡ some artifact)
        (addressed : as_address replace_addresses fuel move_lang sender ≡ some addr) where
      check-ok :
          (prog : List move_lang.Definition × List move_lang.Definition) (r : Checked (Unit {0}))
          → artifact.result ≡ ok prog
          → transformed (artifact.meta).offsets_map (forget (check_program (ok prog) addr)) ≡ some r
          → check replace_addresses fuel move_lang targets deps sender ≡ some r
      unfolding check from_parsing from_check stop_on_errors
      check-ok prog r e t = rw (parsed, e, addressed, t) refl

      check-errors :
          (es : List Error) (r : Checked (Unit {0}))
          → artifact.result ≡ errors es
          → transformed {A = Unit {0}} (artifact.meta).offsets_map (errors es) ≡ some r
          → check replace_addresses fuel move_lang targets deps sender ≡ some r
      unfolding check from_parsing from_check stop_on_errors
      check-errors es r e t = rw (parsed, e, t) refl

    -- If the compiler's check hands errors of its input on, then where a build returns, the checker
    -- returns: either with errors, and then the build has the same errors, or without, and then the
    -- parser and the compiler's check have found none, and the build has what the translation of the
    -- checked program gives, its errors at their positions in the sources.
    pub check-build :
        ((es : List Error) (addr : Option ℕ) → check_program (errors es) addr ≡ errors es)
        → (arts : Artifacts replace_addresses fuel move_lang)
        → build replace_addresses fuel move_lang targets deps sender ≡ some arts
        → (c : Checked (Unit {0})) × (check replace_addresses fuel move_lang targets deps sender
            ≡ some c)
          × Agree c arts.prog
    check-build hands arts h =
        let (artifact, addr, parsed, addressed, t) = build-eq-some arts h in
        elim (Checked-cases artifact.result) [
          | inr (es, e) ↦
              let t' : transformed (artifact.meta).offsets_map (errors es) ≡ some arts.prog =
                rw (e, hands es addr) at t in
              let (es', same, u) = transformed-errors {B = Unit {0}} _ es t' in
              (errors es', check-errors artifact addr parsed addressed es (errors es') e u, same)
          | inl (prog, e) ↦ elim (Checked-cases (check_program (ok prog) addr)) [
            | inl (p, e') ↦ (
              ok tt,
              check-ok artifact addr parsed addressed prog (ok tt) e
                  (rw e' (unfold transformed in refl)),
              record {
                artifact = artifact;
                addr = addr;
                parsed = parsed;
                addressed = addressed;
                definitions = prog;
                program = p;
                parsed_ok = e;
                checked_ok = e';
                translated = rw (e, e') at t;
              },
            )
            | inr (es, e') ↦
                let t' : transformed (artifact.meta).offsets_map (errors es) ≡ some arts.prog =
                  rw (e, e') at t in
                let (es', same, u) = transformed-errors {B = Unit {0}} _ es t' in
                (
                  errors es',
                  check-ok artifact addr parsed addressed prog (errors es') e (rw e' u),
                  same,
                )
          ]
        ]
