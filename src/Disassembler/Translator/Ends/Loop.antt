-- ===== src/Disassembler/Translator/Ends/Loop.antt =====
-- Conditionals, every instruction and the loop end.
use move_language_server.Base.{
  ℕ, zero, suc, ◌≤◌, ◌<◌, ◌≡◌, ◌≢◌, refl, arith, Bool, true, false, List, [], ◌∷◌, Option, none,
  some, ltb, ◌==◌, length, Bool-cases, Option-cases, inl, inr,
}
use mathlib.Core.Path.{subst}
use move_language_server.Disassembler.Outcome.{Outcome, ok, panic, out_of_fuel, ◌>>=◌}
use move_language_server.Disassembler.Exp
use move_language_server.Disassembler.Exp.{Bytecode, Exp, ExpLoc}
use move_language_server.Disassembler.Translator.{
  Setting, Translator, pop_exp, opcode_offset, head, tail, by_relative,
}
use move_language_server.Disassembler.Translator.Build.{value_of, Builds}
use move_language_server.Disassembler.Translator.Branching.{
  TrueBranch, while_body, branch, lone_branch, true_branch, false_branch, complete, paired_branch,
  br_true, br_false, br, next_opcode, as_branch,
}
use move_language_server.Disassembler.Translator.Run.{
  with_struct, with_field, call_generic, next_exp, block_with, translate, push,
}
use move_language_server.Disassembler.Translator.Ends.{
  Ended, Settled-Ended, >>=-Ended, if_let-Ended, ok-Ended, at_index-Settled, module_only-Settled,
  minus-Settled,
}
use move_language_server.Disassembler.Translator.Ends.Builds.{
  Stays, Runs, unary-Stays, binary_op-Stays, write_ref-Stays, ld_const-Stays, loc_exp-Stays,
  reference_exp-Stays, let_of-Stays, ret-Stays, plain-Stays, build_in-Stays, pack-Stays,
  unpack-Runs, field_ref-Stays,
}

module _ (s : Setting) (fuel : ℕ) (run : ℕ → Translator → Outcome (List ExpLoc × Translator))
    (runs : (size : ℕ) → Runs fuel (run size)) where
  lone_branch-Runs : (true_offset : ℕ) → Runs fuel (lone_branch s run true_offset)
  unfolding lone_branch pop_exp
  lone_branch-Runs true_offset t bound h f = elim (Bool-cases (opcode_offset t == t.end_offset)) [
    | inl y ↦ rw (y, lone_branch) (ok-Ended bound _ _ h)
    | inr n ↦
        rw (n, lone_branch)
          (Settled-Ended bound _ _ (minus-Settled _ _) (λ size.
            >>=-Ended bound bound _ _ (runs size t bound h f) (λ false_block t1 h1.
              >>=-Ended bound bound _ _ (runs _ t1 bound h1 f) (λ true_block t2 h2.
                >>=-Ended bound bound _ _ (ok-Ended bound _ _ h2)
                  (λ condition t3 h3. ok-Ended bound _ t3 h3)))))
  ]

  true_branch-Runs :
      (true_offset false_offset : ℕ) → Runs fuel (true_branch s run true_offset false_offset)
  unfolding true_branch
  true_branch-Runs true_offset false_offset t bound h f =
      elim (Bool-cases (ltb true_offset (opcode_offset t))) [
        | inl y ↦ rw (y, true_branch) (ok-Ended bound _ t h)
        | inr n ↦
            rw (n, true_branch)
              (Settled-Ended bound _ _ (minus-Settled _ _) (λ size.
                >>=-Ended bound bound _ _ (runs size t bound h f)
                  (λ exps t1 h1. ok-Ended bound _ t1 h1)))
      ]

  false_branch-Runs :
      (false_offset : ℕ) (false_end : Option ℕ)
      → Runs fuel (false_branch s run false_offset false_end)
  unfolding false_branch
  false_branch-Runs false_offset none t bound h f = ok-Ended bound _ t h
  false_branch-Runs false_offset (some false_end) t bound h f =
      elim (Bool-cases (ltb false_offset (opcode_offset t))) [
        | inl y ↦ rw (y, false_branch) (ok-Ended bound _ t h)
        | inr n ↦
            rw (n, false_branch)
              (Settled-Ended bound _ _ (minus-Settled _ _) (λ size. elim (Bool-cases (size == 0)) [
                | inl y ↦ rw (y, false_branch) (ok-Ended bound _ t h)
                | inr m ↦ rw m (
                    >>=-Ended bound bound _ _ (runs size t bound h f)
                      (λ exps t1 h1. ok-Ended bound _ t1 h1))
              ]))
      ]

  complete-Runs :
      (false_offset : ℕ) (exps : TrueBranch) → Runs fuel (complete s run false_offset exps)
  unfolding complete pop_exp
  complete-Runs false_offset (while_body body) t bound h f = ok-Ended bound _ _ h
  complete-Runs false_offset (branch exps false_end) t bound h f =
      >>=-Ended bound bound _ _ (false_branch-Runs false_offset false_end t bound h f) (λ e t1 h1.
        >>=-Ended bound bound _ _ (ok-Ended bound _ _ h1)
          (λ condition t2 h2. ok-Ended bound _ t2 h2))

  paired_branch-Runs :
      (true_offset false_offset : ℕ) → Runs fuel (paired_branch s run true_offset false_offset)
  unfolding paired_branch
  paired_branch-Runs true_offset false_offset t bound h f =
      >>=-Ended bound bound _ _ (true_branch-Runs true_offset false_offset t bound h f)
        (λ exps t1 h1. complete-Runs false_offset exps t1 bound h1 f)

  tail-length : (code : List Bytecode) → length (tail code) ≤ length code
  tail-length [] = omega arith
  tail-length (opcode ∷ code) = omega arith

  br_true-Runs : (true_offset : ℕ) → Runs fuel (br_true s run true_offset)
  unfolding br_true
  br_true-Runs true_offset t bound h f =
      elim (Option-cases (as_branch (by_relative t.opcode_iter 1))) [
        | inl n ↦ rw (n, br_true) (lone_branch-Runs true_offset t bound h f)
        | inr (offset, y) ↦
            rw (y, br_true)
              (paired_branch-Runs true_offset offset (next_opcode t) bound
                (omega (arith, h, tail-length t.opcode_iter.iter)) f)
      ]

  with_struct-Runs :
      (opcode : Bytecode) (index : ℕ) (g : ℕ → Option ℕ → Builds)
      → ((i : ℕ) (o : Option ℕ) → Runs fuel (g i o))
      → Runs fuel (with_struct s opcode index g)
  unfolding with_struct
  with_struct-Runs opcode index g gs t bound h f =
      Settled-Ended bound _ _ (module_only-Settled _ s.unit index)
        (λ found. if_let-Ended bound found _ _ (ok-Ended bound _ t h) (λ inst. gs _ _ t bound h f))

  with_field-Stays :
      (opcode : Bytecode) (index : ℕ) (is_mut : Bool) → Stays (with_field s opcode index is_mut)
  unfolding with_field
  with_field-Stays opcode index is_mut t bound h =
      Settled-Ended bound _ _ (module_only-Settled _ s.unit index) (λ found.
        if_let-Ended bound found _ _ (ok-Ended bound _ t h)
          (λ handle. field_ref-Stays s handle is_mut t bound h))

  call_generic-Stays : (index : ℕ) → Stays (call_generic s index)
  unfolding call_generic
  call_generic-Stays index t bound h =
      Settled-Ended bound _ _ (at_index-Settled _ index) (λ inst. plain-Stays s _ _ t bound h)

  pub next_exp-Runs : (opcode : Bytecode) → Runs fuel (next_exp s run opcode)
  unfolding next_exp br br_false
  next_exp-Runs Exp.pop_code t bound h f = ok-Ended bound _ t h
  next_exp-Runs Exp.not_code t bound h f = unary-Stays Exp.not_exp t bound h
  next_exp-Runs Exp.abort_code t bound h f = unary-Stays Exp.abort_exp t bound h
  next_exp-Runs Exp.add_code t bound h f = binary_op-Stays Exp.add t bound h
  next_exp-Runs Exp.sub_code t bound h f = binary_op-Stays Exp.sub t bound h
  next_exp-Runs Exp.mul_code t bound h f = binary_op-Stays Exp.mul t bound h
  next_exp-Runs Exp.mod_code t bound h f = binary_op-Stays Exp.mod_op t bound h
  next_exp-Runs Exp.div_code t bound h f = binary_op-Stays Exp.div t bound h
  next_exp-Runs Exp.bit_or_code t bound h f = binary_op-Stays Exp.bit_or t bound h
  next_exp-Runs Exp.bit_and_code t bound h f = binary_op-Stays Exp.bit_and t bound h
  next_exp-Runs Exp.xor_code t bound h f = binary_op-Stays Exp.xor t bound h
  next_exp-Runs Exp.or_code t bound h f = binary_op-Stays Exp.or_op t bound h
  next_exp-Runs Exp.and_code t bound h f = binary_op-Stays Exp.and_op t bound h
  next_exp-Runs Exp.eq_code t bound h f = binary_op-Stays Exp.eq t bound h
  next_exp-Runs Exp.neq_code t bound h f = binary_op-Stays Exp.neq t bound h
  next_exp-Runs Exp.lt_code t bound h f = binary_op-Stays Exp.lt t bound h
  next_exp-Runs Exp.gt_code t bound h f = binary_op-Stays Exp.gt t bound h
  next_exp-Runs Exp.le_code t bound h f = binary_op-Stays Exp.le t bound h
  next_exp-Runs Exp.ge_code t bound h f = binary_op-Stays Exp.ge t bound h
  next_exp-Runs Exp.shl_code t bound h f = binary_op-Stays Exp.shl t bound h
  next_exp-Runs Exp.shr_code t bound h f = binary_op-Stays Exp.shr t bound h
  next_exp-Runs Exp.nop_code t bound h f = ok-Ended bound _ t h
  next_exp-Runs Exp.ret_code t bound h f = ret-Stays s t bound h
  next_exp-Runs Exp.cast_u8_code t bound h f =
      unary-Stays (λ exp. Exp.cast_exp exp Exp.u8_type) t bound h
  next_exp-Runs Exp.cast_u64_code t bound h f =
      unary-Stays (λ exp. Exp.cast_exp exp Exp.u64_type) t bound h
  next_exp-Runs Exp.cast_u128_code t bound h f =
      unary-Stays (λ exp. Exp.cast_exp exp Exp.u128_type) t bound h
  next_exp-Runs (Exp.ld_u8_code val) t bound h f = ok-Ended bound _ t h
  next_exp-Runs (Exp.ld_u64_code val) t bound h f = ok-Ended bound _ t h
  next_exp-Runs (Exp.ld_u128_code val) t bound h f = ok-Ended bound _ t h
  next_exp-Runs (Exp.ld_const_code index) t bound h f = ld_const-Stays s index t bound h
  next_exp-Runs Exp.ld_true_code t bound h f = ok-Ended bound _ t h
  next_exp-Runs Exp.ld_false_code t bound h f = ok-Ended bound _ t h
  next_exp-Runs (Exp.call_code index) t bound h f = plain-Stays s index none t bound h
  next_exp-Runs (Exp.call_generic_code index) t bound h f = call_generic-Stays index t bound h
  next_exp-Runs (Exp.exists_code index) t bound h f =
      build_in-Stays s Exp.exists_fn index none t bound h
  next_exp-Runs (Exp.exists_generic_code index) t bound h f =
      with_struct-Runs _ index _ (λ i o t bound h f. build_in-Stays s Exp.exists_fn i o t bound h) t
        bound h f
  next_exp-Runs (Exp.move_from_code index) t bound h f =
      build_in-Stays s Exp.move_from index none t bound h
  next_exp-Runs (Exp.move_from_generic_code index) t bound h f =
      with_struct-Runs _ index _ (λ i o t bound h f. build_in-Stays s Exp.move_from i o t bound h) t
        bound h f
  next_exp-Runs (Exp.move_to_code index) t bound h f =
      build_in-Stays s Exp.move_to index none t bound h
  next_exp-Runs (Exp.move_to_generic_code index) t bound h f =
      with_struct-Runs _ index _ (λ i o t bound h f. build_in-Stays s Exp.move_to i o t bound h) t
        bound h f
  next_exp-Runs (Exp.imm_borrow_global_code index) t bound h f =
      build_in-Stays s Exp.borrow_global index none t bound h
  next_exp-Runs (Exp.imm_borrow_global_generic_code index) t bound h f =
      with_struct-Runs _ index _
        (λ i o t bound h f. build_in-Stays s Exp.borrow_global i o t bound h) t bound h f
  next_exp-Runs (Exp.mut_borrow_global_code index) t bound h f =
      build_in-Stays s Exp.borrow_global_mut index none t bound h
  next_exp-Runs (Exp.mut_borrow_global_generic_code index) t bound h f =
      with_struct-Runs _ index _
        (λ i o t bound h f. build_in-Stays s Exp.borrow_global_mut i o t bound h) t bound h f
  next_exp-Runs (Exp.copy_loc_code index) t bound h f =
      loc_exp-Stays s false Exp.copy_access index t bound h
  next_exp-Runs (Exp.move_loc_code index) t bound h f =
      loc_exp-Stays s false Exp.move_access index t bound h
  next_exp-Runs (Exp.st_loc_code index) t bound h f = let_of-Stays s index t bound h
  next_exp-Runs (Exp.pack_code index) t bound h f = pack-Stays s index none t bound h
  next_exp-Runs (Exp.pack_generic_code index) t bound h f =
      with_struct-Runs _ index _ (λ i o t bound h f. pack-Stays s i o t bound h) t bound h f
  next_exp-Runs (Exp.unpack_code def) t bound h f = unpack-Runs s fuel run runs def none t bound h f
  next_exp-Runs (Exp.unpack_generic_code index) t bound h f =
      with_struct-Runs _ index _ (unpack-Runs s fuel run runs) t bound h f
  next_exp-Runs (Exp.mut_borrow_field_code index) t bound h f =
      field_ref-Stays s index true t bound h
  next_exp-Runs (Exp.mut_borrow_field_generic_code index) t bound h f =
      with_field-Stays _ index true t bound h
  next_exp-Runs (Exp.imm_borrow_field_code index) t bound h f =
      field_ref-Stays s index false t bound h
  next_exp-Runs (Exp.imm_borrow_field_generic_code index) t bound h f =
      with_field-Stays _ index false t bound h
  next_exp-Runs Exp.freeze_ref_code t bound h f = unary-Stays value_of t bound h
  next_exp-Runs (Exp.mut_borrow_loc_code index) t bound h f =
      reference_exp-Stays s index true t bound h
  next_exp-Runs (Exp.imm_borrow_loc_code index) t bound h f =
      reference_exp-Stays s index false t bound h
  next_exp-Runs Exp.read_ref_code t bound h f = unary-Stays Exp.deref_exp t bound h
  next_exp-Runs Exp.write_ref_code t bound h f = write_ref-Stays t bound h
  next_exp-Runs (Exp.br_true_code true_offset) t bound h f = br_true-Runs true_offset t bound h f
  next_exp-Runs (Exp.br_false_code offset) t bound h f = ok-Ended bound _ t h
  next_exp-Runs (Exp.branch_code offset) t bound h f = ok-Ended bound _ t h

-- A translation that ends with at most `bound` instructions left.
unfoldable pub Finished : ℕ → Outcome Translator → Type 0
Finished bound (ok t) = length t.opcode_iter.iter ≤ bound
Finished bound panic = Unit
Finished bound out_of_fuel = ⊥

Finished-Ended :
    {B : Type 0} (bound : ℕ) (m : Outcome Translator) (f : Translator → Outcome (B × Translator))
    → Finished bound m
    → ((t : Translator) → length t.opcode_iter.iter ≤ bound → Ended bound (f t))
    → Ended bound (m >>= f)
unfolding Finished Ended ◌>>=◌
Finished-Ended bound (ok t) f h g = g t h
Finished-Ended bound panic f h g = tt
Finished-Ended bound out_of_fuel f h g = absurd h

Ended-Finished :
    {A : Type 0} (bound limit : ℕ) (m : Outcome (A × Translator))
    (f : A × Translator → Outcome Translator)
    → Ended bound m
    → ((a : A) (t : Translator) → length t.opcode_iter.iter ≤ bound → Finished limit (f (a, t)))
    → Finished limit (m >>= f)
unfolding Finished Ended ◌>>=◌
Ended-Finished bound limit (ok (a, t)) f h g = g a t h
Ended-Finished bound limit panic f h g = tt
Ended-Finished bound limit out_of_fuel f h g = absurd h

Finished-weaken :
    (bound limit : ℕ) (m : Outcome Translator) → bound ≤ limit → Finished bound m → Finished limit m
unfolding Finished
Finished-weaken bound limit (ok t) h g = omega arith
Finished-weaken bound limit panic h g = tt
Finished-weaken bound limit out_of_fuel h g = g

block_with-Runs :
    (fuel : ℕ) (run : Translator → Outcome Translator)
    → ((t : Translator) (bound : ℕ)
        → length t.opcode_iter.iter ≤ bound
        → bound < fuel
        → Finished bound (run t))
    → (size : ℕ) → Runs fuel (block_with run size)
unfolding block_with
block_with-Runs fuel run ends size t bound h f =
    Finished-Ended bound _ _ (ends _ bound h f) (λ done g. ok-Ended bound _ _ g)

tail-suc :
    (code : List Bytecode) (opcode : Bytecode)
    → head code ≡ some opcode
    → suc (length (tail code)) ≡ length code
tail-suc [] opcode h = cc
tail-suc (c ∷ code) opcode h = refl

ok-Finished :
    (bound : ℕ) (t : Translator) → length t.opcode_iter.iter ≤ bound → Finished bound (ok t)
unfolding Finished
ok-Finished bound t h = h

tail-le : (code : List Bytecode) → length (tail code) ≤ length code
tail-le [] = omega arith
tail-le (opcode ∷ code) = omega arith

translate-Finished :
    (s : Setting) (fuel : ℕ) (t : Translator) (bound : ℕ)
    → length t.opcode_iter.iter ≤ bound
    → bound < fuel
    → Finished bound (translate s fuel t)
unfolding translate
translate-Finished s zero t bound h f = absurd (omega arith)
translate-Finished s (suc fuel) t bound h f =
    elim (Bool-cases (ltb (opcode_offset t) t.end_offset)) [
      | inr n ↦ rw (n, translate) (ok-Finished bound t h)
      | inl y ↦ elim (Option-cases (head t.opcode_iter.iter)) [
        | inl n ↦
            rw (y, translate)
              (rw n (ok-Finished bound _ (omega (arith, h, tail-le t.opcode_iter.iter))))
        | inr (opcode, e) ↦
            let left = length (tail t.opcode_iter.iter) in
            let shorter = tail-suc t.opcode_iter.iter opcode e in
            let blocks = block_with-Runs fuel (translate s fuel) (translate-Finished s fuel) in
            rw (y, translate)
              (rw e (
                Ended-Finished left bound _ _
                  (next_exp-Runs s fuel _ blocks opcode (next_opcode t) left (omega arith)
                    (omega arith))
                  (λ exp t1 g.
                    Finished-weaken left bound _ (omega arith)
                      (translate-Finished s fuel (push exp t1) left g (omega arith)))))
      ]
    ]

-- With fuel for more turns than there are instructions left, a translation, with all its blocks,
-- does not run out of fuel, whatever the code is and wherever it is.
pub translate_ends :
    (s : Setting) (fuel : ℕ) (t : Translator)
    → length t.opcode_iter.iter < fuel
    → translate s fuel t ≢ out_of_fuel
unfolding Finished
translate_ends s fuel t h e =
    subst (Finished (length t.opcode_iter.iter)) e
      (translate-Finished s fuel t (length t.opcode_iter.iter) (omega arith) h)
