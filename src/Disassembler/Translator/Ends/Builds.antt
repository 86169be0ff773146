-- ===== src/Disassembler/Translator/Ends/Builds.antt =====
-- No expression takes back an instruction, and none asks for fuel of its own.
use move_language_server.Base.{
  ℕ, zero, suc, ◌≤◌, ◌<◌, Bool, List, [], ◌∷◌, Option, ltb, length, Bool-cases, inl, inr,
}
use move_language_server.Disassembler.Outcome.{Outcome, ok}
use move_language_server.Disassembler.Unit.{StructDefinition, FieldHandle}
use move_language_server.Disassembler.Exp.{
  Op, Exp, ExpLoc, ExpLocs, at, let_exp, BuildIn, LocAccess,
}
use move_language_server.Disassembler.Translator.{
  Setting, Translator, pop_exp, pop2_exp, pop_exp_vec, pack_fields,
}
use move_language_server.Disassembler.Translator.Build.{
  Builds, gives, unary, binary_op, write_ref, ld_const, loc_exp, reference_exp, assigned, let_of,
  pops, ret, plain, build_in, pack, unpack, field_ref_of, field_ref, field_names,
}
use move_language_server.Disassembler.Translator.Ends.{
  Settled, Ended, Settled-Ended, >>=-Ended, if_let-Ended, if_let-Settled, ok-Ended, ok-Settled,
  at_index-Settled, module_only-Settled, module_import-Settled, extract_signature-Settled,
  local_var-Settled, identifiers_at-Settled, minus-Settled,
}

-- It ends with no more instructions left than before.
abbrev pub Stays : Builds → Type 0
Stays build =
    (t : Translator) (bound : ℕ) → length t.opcode_iter.iter ≤ bound → Ended bound (build t)

-- So does a block, where less is left than the fuel.
abbrev pub Runs : {A : Type 0} → ℕ → (Translator → Outcome (A × Translator)) → Type 0
Runs fuel run =
    (t : Translator) (bound : ℕ)
    → length t.opcode_iter.iter ≤ bound
    → bound < fuel
    → Ended bound (run t)

pub gives-Stays : (exp : Exp) → Stays (gives exp)
gives-Stays exp t bound h = ok-Ended bound _ t h

pub unary-Stays : (f : ExpLoc → Exp) → Stays (unary f)
unfolding unary pop_exp
unary-Stays f t bound h = ok-Ended bound _ _ h

pub binary_op-Stays : (sign : Op) → Stays (binary_op sign)
unfolding binary_op pop2_exp pop_exp
binary_op-Stays sign t bound h = ok-Ended bound _ _ h

pub write_ref-Stays : Stays write_ref
unfolding write_ref pop2_exp pop_exp
write_ref-Stays t bound h = ok-Ended bound _ _ h

pop_exp_vec-Ended :
    (n : ℕ) (t : Translator) (bound : ℕ)
    → length t.opcode_iter.iter ≤ bound
    → Ended bound (ok (pop_exp_vec n t))
unfolding Ended pop_exp_vec
pop_exp_vec-Ended n t bound h = elim (Bool-cases (ltb (length t.expressions) n)) [
  | inl y ↦ rw y h
  | inr n ↦ rw n h
]

assigned-Ended :
    (s : Setting) (exps : List ExpLoc) (t : Translator) (bound : ℕ)
    → length t.opcode_iter.iter ≤ bound
    → Ended bound (ok (assigned s exps t))
unfolding Ended assigned pop_exp
assigned-Ended s [] t bound h = h
assigned-Ended s (at i (let_exp l e) ∷ exps) t bound h = h
assigned-Ended s (at i exp ∷ exps) t bound h = h

pops-Ended :
    (s : Setting) (n : ℕ) (exps : ExpLocs) (t : Translator) (bound : ℕ)
    → length t.opcode_iter.iter ≤ bound
    → Ended bound (ok (pops s n exps t))
unfolding Ended pops pop_exp
pops-Ended s zero exps t bound h = h
pops-Ended s (suc n) exps t bound h = pops-Ended s n _ _ bound h

pack_fields-Ended :
    (s : Setting) (def : StructDefinition) (t : Translator) (bound : ℕ)
    → length t.opcode_iter.iter ≤ bound
    → Ended bound (pack_fields s def t)
unfolding pack_fields
pack_fields-Ended s def t bound h = if_let-Ended bound _ _ _ (ok-Ended bound _ t h) (λ fields.
    Settled-Ended bound _ _ (identifiers_at-Settled s _) (λ names.
      >>=-Ended bound bound _ _ (pop_exp_vec-Ended _ t bound h)
        (λ exps t1 h1. ok-Ended bound _ t1 h1)))

module _ (s : Setting) where
  pub ld_const-Stays : (index : ℕ) → Stays (ld_const s index)
  unfolding ld_const
  ld_const-Stays index t bound h =
      Settled-Ended bound _ _ (at_index-Settled _ index) (λ value. ok-Ended bound _ t h)

  pub loc_exp-Stays :
      (explicit : Bool) (access : LocAccess) (index : ℕ) → Stays (loc_exp s explicit access index)
  unfolding loc_exp
  loc_exp-Stays explicit access index t bound h =
      Settled-Ended bound _ _ (local_var-Settled s index) (λ l. ok-Ended bound _ _ h)

  pub reference_exp-Stays : (index : ℕ) (is_mut : Bool) → Stays (reference_exp s index is_mut)
  unfolding reference_exp
  reference_exp-Stays index is_mut t bound h =
      Settled-Ended bound _ _ (local_var-Settled s index) (λ l. ok-Ended bound _ _ h)

  pub let_of-Stays : (index : ℕ) → Stays (let_of s index)
  unfolding let_of Ended
  let_of-Stays index t bound h =
      Settled-Ended bound _ _ (local_var-Settled s index)
        (λ l. assigned-Ended s t.expressions t bound h)

  pub ret-Stays : Stays (ret s)
  unfolding ret Ended
  ret-Stays t bound h = pops-Ended s s.ret_len _ t bound h

  pub plain-Stays : (index : ℕ) (type_params : Option ℕ) → Stays (plain s index type_params)
  unfolding plain
  plain-Stays index type_params t bound h =
      Settled-Ended bound _ _ (at_index-Settled _ _) (λ handler.
        Settled-Ended bound _ _ (at_index-Settled _ _) (λ f_name.
          Settled-Ended bound _ _ (at_index-Settled _ _) (λ parameters.
            >>=-Ended bound bound _ _ (pop_exp_vec-Ended _ t bound h) (λ params t1 h1.
              Settled-Ended bound _ _ (extract_signature-Settled s type_params) (λ types.
                Settled-Ended bound _ _ (at_index-Settled _ _) (λ handle.
                  Settled-Ended bound _ _ (module_import-Settled s handle)
                    (λ import. ok-Ended bound _ t1 h1)))))))

  pub build_in-Stays :
      (kind : BuildIn) (index : ℕ) (type_params : Option ℕ)
      → Stays (build_in s kind index type_params)
  unfolding build_in
  build_in-Stays kind index type_params t bound h =
      Settled-Ended bound _ _ (module_only-Settled _ s.unit index) (λ found.
        if_let-Ended bound found _ _ (ok-Ended bound _ t h) (λ def.
          Settled-Ended bound _ _ (at_index-Settled _ _) (λ struct_handler.
            Settled-Ended bound _ _ (at_index-Settled _ _) (λ handle.
              Settled-Ended bound _ _ (module_import-Settled s handle) (λ import.
                >>=-Ended bound bound _ _ (pop_exp_vec-Ended _ t bound h) (λ params t1 h1.
                  Settled-Ended bound _ _ (extract_signature-Settled s type_params) (λ types.
                    Settled-Ended bound _ _ (at_index-Settled _ _)
                      (λ name. ok-Ended bound _ t1 h1))))))))

  pub pack-Stays : (index : ℕ) (type_params : Option ℕ) → Stays (pack s index type_params)
  unfolding pack
  pack-Stays index type_params t bound h =
      Settled-Ended bound _ _ (module_only-Settled _ s.unit index) (λ found.
        if_let-Ended bound found _ _ (ok-Ended bound _ t h) (λ def.
          Settled-Ended bound _ _ (at_index-Settled _ _) (λ struct_handler.
            Settled-Ended bound _ _ (at_index-Settled _ _) (λ handle.
              Settled-Ended bound _ _ (at_index-Settled _ _) (λ name.
                >>=-Ended bound bound _ _ (pack_fields-Ended s def t bound h) (λ fields t1 h1.
                  Settled-Ended bound _ _ (extract_signature-Settled s type_params) (λ types.
                    Settled-Ended bound _ _ (module_import-Settled s handle)
                      (λ import. ok-Ended bound _ t1 h1))))))))

  field_names-Settled : (def : StructDefinition) → Settled (field_names s def)
  field_names-Settled def =
      if_let-Settled def.field_information _ _ (ok-Settled _) (λ fields. identifiers_at-Settled s _)

  pub unpack-Runs :
      (fuel : ℕ) (run : ℕ → Translator → Outcome (List ExpLoc × Translator))
      → ((size : ℕ) → Runs fuel (run size))
      → (index : ℕ) (type_params : Option ℕ) → Runs fuel (unpack s run index type_params)
  unfolding unpack pop_exp
  unpack-Runs fuel run runs index type_params t bound h f =
      Settled-Ended bound _ _ (module_only-Settled _ s.unit index) (λ found.
        if_let-Ended bound found _ _ (ok-Ended bound _ t h) (λ def.
          Settled-Ended bound _ _ (at_index-Settled _ _) (λ struct_handler.
            Settled-Ended bound _ _ (at_index-Settled _ _) (λ handle.
              Settled-Ended bound _ _ (at_index-Settled _ _) (λ name.
                Settled-Ended bound _ _ (extract_signature-Settled s type_params) (λ types.
                  Settled-Ended bound _ _ (field_names-Settled def) (λ names.
                    >>=-Ended bound bound _ _ (runs _ t bound h f) (λ expressions t1 h1.
                      Settled-Ended bound _ _ (minus-Settled _ _) (λ missing.
                        Settled-Ended bound _ _ (module_import-Settled s handle) (λ import.
                          >>=-Ended bound bound _ _ (ok-Ended bound _ _ h1) (λ source t2 h2.
                            Settled-Ended bound _ _ (ok-Settled _)
                              (λ values. ok-Ended bound _ t2 h2))))))))))))

  field_ref_of-Stays :
      (is_mut : Bool) (field : FieldHandle) (def : StructDefinition)
      → Stays (field_ref_of s is_mut field def)
  unfolding field_ref_of pop_exp
  field_ref_of-Stays is_mut field def t bound h =
      if_let-Ended bound _ _ _ (ok-Ended bound _ t h) (λ fields.
        if_let-Ended bound _ _ _ (ok-Ended bound _ t h) (λ name.
          Settled-Ended bound _ _ (at_index-Settled _ _) (λ field_name. ok-Ended bound _ _ h)))

  pub field_ref-Stays : (index : ℕ) (is_mut : Bool) → Stays (field_ref s index is_mut)
  unfolding field_ref
  field_ref-Stays index is_mut t bound h =
      Settled-Ended bound _ _ (module_only-Settled _ s.unit index) (λ found.
        if_let-Ended bound found _ _ (ok-Ended bound _ t h) (λ field.
          Settled-Ended bound _ _ (module_only-Settled _ s.unit field.owner) (λ owner.
            if_let-Ended bound owner _ _ (ok-Ended bound _ t h)
              (λ def. field_ref_of-Stays is_mut field def t bound h))))
