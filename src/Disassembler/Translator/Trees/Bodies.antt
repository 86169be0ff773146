-- ===== src/Disassembler/Translator/Trees/Bodies.antt =====
-- The body of a function that returns one expression.
use move_language_server.Base.{
  ℕ, suc, ◌+◌, ◌≤◌, ◌<◌, ◌≡◌, refl, ap, ◌∙◌, arith, false, List, [], ◌∷◌, length, lt→ltb,
}
use move_language_server.Disassembler.Outcome.{Outcome, ok, ◌>>=◌}
use move_language_server.Disassembler.Exp
use move_language_server.Disassembler.Exp.{
  Bytecode, Exp, ExpLoc, at, ExpLocs, no_exps, more_exps, Op,
}
use move_language_server.Disassembler.Translator.{Setting, Translator, pop_exp, in_order}
use move_language_server.Disassembler.Translator.Build.{ret, pops}
use move_language_server.Disassembler.Translator.Branching.{next_opcode}
use move_language_server.Disassembler.Translator.Run.{next_exp, translate, new_body}
use move_language_server.Disassembler.Translator.Trees.{Tree, compile, shown, marks, Fits}
use move_language_server.Disassembler.Translator.Trees.Steps.{at_position, gives_step}
use move_language_server.Disassembler.Translator.Trees.Laws.{translate-compile, length-compile}
use move_language_server.Disassembler.Translator.Run.{Body}

ret_step :
    (s : Setting) (code : List Bytecode) (end p fuel : ℕ) (exp : ExpLoc) (used : List ℕ)
    → s.ret_len ≡ 1
    → p ≤ end
    → 0 < end
    → translate s (suc fuel) (at_position code end (Exp.ret_code ∷ []) p (exp ∷ []) used)
      ≡ translate s fuel (
          at_position code end []
            (suc p)
            (at p (Exp.ret_exp (more_exps exp no_exps) false) ∷ [])
            used)
unfolding next_exp ret pops pop_exp
ret_step s code end p fuel exp used r h g =
    gives_step s code end _ [] p fuel _ [] used used (Exp.ret_exp (more_exps exp no_exps) false) h g
      (rw (r, ret) refl)

end_step :
    (s : Setting) (code : List Bytecode) (end p fuel : ℕ) (exps : List ExpLoc) (used : List ℕ)
    → p < end
    → translate s (suc fuel) (at_position code end [] (suc p) exps used)
      ≡ ok (next_opcode (at_position code end [] (suc p) exps used))
unfolding translate
end_step s code end p fuel exps used h = rw (lt→ltb p end h, translate) refl

-- What `new_body` does with the translator in the end.
abbrev finish : Setting → Translator → Outcome Body
finish s done =
    ok (record {
      block_exps = in_order done.expressions no_exps;
      locals = s.locals;
      used = done.used;
    })

-- The body of a function that returns one value, whose code is that of an expression without
-- branches and a return, is disassembled to the return of just that expression: the whole code
-- is read, without a panic, and the locals that the expression names are those marked as used.
pub new_body-compile :
    (s : Setting) (e : Tree)
    → Fits s e
    → s.ret_len ≡ 1
    → new_body s (compile e (Exp.ret_code ∷ []))
      ≡ ok (record {
        block_exps =
            more_exps
              (at (length (compile e [])) (Exp.ret_exp (more_exps (shown 0 e) no_exps) false))
              no_exps;
        locals = s.locals;
        used = marks e [];
      })
unfolding new_body ◌>>=◌ in_order
new_body-compile s e f r =
    let code = compile e (Exp.ret_code ∷ []) in
    let end = 0 + length code in
    let size = length (compile e []) in
    let last : length code ≡ size + 1 =
      omega (arith, length-compile e 0 (Exp.ret_code ∷ []), length-compile e 0 []) in
    let turns : length code + 1 ≡ size + 2 = omega arith in
    let place : 0 + size ≡ size = omega arith in
    let run =
      translate-compile s code end e 0 2 (Exp.ret_code ∷ []) [] [] f (omega arith) (omega arith) in
    let run_ret =
      ret_step s code end size 1 (shown 0 e) (marks e []) r (omega arith) (omega arith) in
    let run_end = end_step s code end size 0 _ (marks e []) (omega arith) in
    let done = next_opcode (
      at_position code end [] (suc size)
        (at size (Exp.ret_exp (more_exps (shown 0 e) no_exps) false) ∷ []) (marks e [])) in
    let whole : translate s (length code + 1) (at_position code end code 0 [] []) ≡ ok done =
      rw turns (run ∙ rw place (run_ret ∙ run_end)) in
    ap (λ m. m >>= finish s) whole
