-- ===== src/Disassembler/Translator/Trees/Laws.antt =====
-- The translator finds in the code of a tree the expression of the tree.
use move_language_server.Base.{
  ℕ, suc, ◌+◌, ◌≤◌, ◌<◌, ◌≡◌, refl, ap, ◌∙◌, arith, List, [], ◌∷◌, ◌++◌, length, take, drop, le→ltb,
  take_all, drop_all,
}
use move_language_server.Disassembler.Exp
use move_language_server.Disassembler.Exp.{
  Bytecode, Exp, ExpLoc, at, ExpLocs, no_exps, more_exps, Op,
}
use move_language_server.Disassembler.Translator.{Setting, pop_exp_vec, in_order}
use move_language_server.Disassembler.Translator.Run.{translate}
use move_language_server.Disassembler.Translator.Trees.{
  Tree, leaf, unary_tree, binary_tree, call_tree, Trees, no_trees, more_trees, unary_code, op_code,
  compile, compile_all, after, after_all, shown, shown_all, marks, marks_all, count, Fits, AllFit,
}
use move_language_server.Disassembler.Translator.Trees.Steps.{
  at_position, gives_step, leaf_next, unary_next, binary_next, call_next,
}

-- Fuel for the turns of a tree, before more fuel.
unfoldable mutual
  pub fuel_for : Tree → ℕ → ℕ
  fuel_for (leaf l) fuel = suc fuel
  fuel_for (unary_tree u e) fuel = fuel_for e (suc fuel)
  fuel_for (binary_tree op l r) fuel = fuel_for l (fuel_for r (suc fuel))
  fuel_for (call_tree index import name args) fuel = fuel_for_all args (suc fuel)

  pub fuel_for_all : Trees → ℕ → ℕ
  fuel_for_all no_trees fuel = fuel
  fuel_for_all (more_trees e es) fuel = fuel_for e (fuel_for_all es fuel)

mutual
  unfolding after

  pub after_grows : (p : ℕ) (e : Tree) → p < after p e
  after_grows p (leaf l) = omega arith
  after_grows p (unary_tree u e) = omega (arith, after_grows p e)
  after_grows p (binary_tree op l r) = omega (arith, after_grows p l, after_grows (after p l) r)
  after_grows p (call_tree index import name args) = omega (arith, after_all_grows p args)

  after_all_grows : (p : ℕ) (es : Trees) → p ≤ after_all p es
  after_all_grows p no_trees = omega arith
  after_all_grows p (more_trees e es) =
      omega (arith, after_grows p e, after_all_grows (after p e) es)

mutual
  unfolding compile after

  pub length-compile :
      (e : Tree) (p : ℕ) (more : List Bytecode)
      → p + length (compile e more) ≡ after p e + length more
  length-compile (leaf l) p more = omega arith
  length-compile (unary_tree u e) p more = omega (arith, length-compile e p (unary_code u ∷ more))
  length-compile (binary_tree op l r) p more = omega (
    arith,
    length-compile l p (compile r (op_code op ∷ more)),
    length-compile r (after p l) (op_code op ∷ more),
  )
  length-compile (call_tree index import name args) p more =
      omega (arith, length-compile_all args p (Exp.call_code index ∷ more))

  length-compile_all :
      (es : Trees) (p : ℕ) (more : List Bytecode)
      → p + length (compile_all es more) ≡ after_all p es + length more
  length-compile_all no_trees p more = refl
  length-compile_all (more_trees e es) p more =
      omega
        (arith, length-compile e p (compile_all es more), length-compile_all es (after p e) more)

mutual
  unfolding compile fuel_for

  pub fuel_for-length :
      (e : Tree) (fuel : ℕ) (more : List Bytecode)
      → length (compile e more) + fuel ≡ fuel_for e (length more + fuel)
  fuel_for-length (leaf l) fuel more = omega arith
  fuel_for-length (unary_tree u e) fuel more =
      fuel_for-length e fuel (unary_code u ∷ more) ∙ ap (fuel_for e) (omega arith)
  fuel_for-length (binary_tree op l r) fuel more =
      fuel_for-length l fuel (compile r (op_code op ∷ more))
      ∙ ap (fuel_for l) (fuel_for-length r fuel (op_code op ∷ more) ∙ ap (fuel_for r) (omega arith))
  fuel_for-length (call_tree index import name args) fuel more =
      fuel_for_all-length args fuel (Exp.call_code index ∷ more)
      ∙ ap (fuel_for_all args) (omega arith)

  fuel_for_all-length :
      (es : Trees) (fuel : ℕ) (more : List Bytecode)
      → length (compile_all es more) + fuel ≡ fuel_for_all es (length more + fuel)
  fuel_for_all-length no_trees fuel more = refl
  fuel_for_all-length (more_trees e es) fuel more =
      fuel_for-length e fuel (compile_all es more)
      ∙ ap (fuel_for e) (fuel_for_all-length es fuel more)

-- The arguments of a call on top of other expressions.
unfoldable pushed : ℕ → Trees → List ExpLoc → List ExpLoc
pushed p no_trees exps = exps
pushed p (more_trees e es) exps = pushed (after p e) es (shown p e ∷ exps)

pushed-take :
    (p n : ℕ) (es : Trees) (front exps : List ExpLoc)
    → count es + length front ≡ n
    → in_order (take n (pushed p es (front ++ exps))) no_exps ≡ in_order front (shown_all p es)
unfolding pushed shown in_order
pushed-take p n no_trees front exps h =
    let e : length front ≡ n = omega arith in
    rw (← e) (ap (λ stack. in_order stack no_exps) (take_all front exps))
pushed-take p n (more_trees e es) front exps h =
    pushed-take (after p e) n es (shown p e ∷ front) exps (omega arith)

pushed-drop :
    (p n : ℕ) (es : Trees) (front exps : List ExpLoc)
    → count es + length front ≡ n
    → drop n (pushed p es (front ++ exps)) ≡ exps
unfolding pushed
pushed-drop p n no_trees front exps h =
    let e : length front ≡ n = omega arith in rw (← e) (drop_all front exps)
pushed-drop p n (more_trees e es) front exps h =
    pushed-drop (after p e) n es (shown p e ∷ front) exps (omega arith)

length-pushed :
    (p : ℕ) (es : Trees) (exps : List ExpLoc) → length (pushed p es exps) ≡ count es + length exps
unfolding pushed
length-pushed p no_trees exps = omega arith
length-pushed p (more_trees e es) exps =
    omega (arith, length-pushed (after p e) es (shown p e ∷ exps))

module _ (s : Setting) (code : List Bytecode) (end : ℕ) where
  pop_exp_vec-pushed :
      (p q : ℕ) (es : Trees) (more : List Bytecode) (exps : List ExpLoc) (used : List ℕ)
      → pop_exp_vec (count es) (at_position code end more q (pushed p es exps) used)
        ≡ (shown_all p es, at_position code end more q exps used)
  unfolding pop_exp_vec in_order
  pop_exp_vec-pushed p q es more exps used =
      let enough =
        le→ltb (length (pushed p es exps)) (count es) (omega (arith, length-pushed p es exps)) in
      rw (enough, pop_exp_vec)
        (rw
          (
            pushed-take p (count es) es [] exps (omega arith),
            pushed-drop p (count es) es [] exps (omega arith),
          )
          refl)

  mutual
    unfolding compile after shown marks Fits fuel_for pushed

    translate_tree :
        (e : Tree) (p fuel : ℕ) (more : List Bytecode) (exps : List ExpLoc) (used : List ℕ)
        → Fits s e
        → after p e ≤ suc end
        → 0 < end
        → translate s (fuel_for e fuel) (at_position code end (compile e more) p exps used)
          ≡ translate s fuel
              (at_position code end more (after p e) (shown p e ∷ exps) (marks e used))
    translate_tree (leaf l) p fuel more exps used f h g =
        gives_step s code end _ more p fuel exps exps used _ _ (omega arith) g
          (leaf_next s code end _ more (suc p) l exps used f)
    translate_tree (unary_tree u e) p fuel more exps used f h g =
        translate_tree e p (suc fuel) (unary_code u ∷ more) exps used f (omega arith) g
        ∙ gives_step s code end _ more (after p e) fuel _ exps _ _ _ (omega arith) g
            (unary_next s code end _ more (suc (after p e)) u _ exps _)
    translate_tree (binary_tree op l r) p fuel more exps used (fl, fr) h g =
        let q = after p l in
        translate_tree l p (fuel_for r (suc fuel)) (compile r (op_code op ∷ more)) exps used fl
          (omega (arith, after_grows q r, h)) g
        ∙ translate_tree r q (suc fuel) (op_code op ∷ more) (shown p l ∷ exps) (marks l used) fr
            (omega arith) g
        ∙ gives_step s code end _ more (after q r) fuel _ exps _ _ _ (omega arith) g
            (binary_next s code end _ more (suc (after q r)) op _ _ exps _)
    translate_tree (call_tree index import name args) p fuel more exps used (c, f) h g =
        translate_trees args p (suc fuel) (Exp.call_code index ∷ more) exps used f (omega arith) g
        ∙ gives_step s code end _ more (after_all p args) fuel _ exps _ _ _ (omega arith) g (
            call_next s code end _ more (suc (after_all p args)) index (count args) import name _ _
              exps _ c (pop_exp_vec-pushed p (suc (after_all p args)) args more exps _))

    translate_trees :
        (es : Trees) (p fuel : ℕ) (more : List Bytecode) (exps : List ExpLoc) (used : List ℕ)
        → AllFit s es
        → after_all p es ≤ suc end
        → 0 < end
        → translate s
            (fuel_for_all es fuel)
            (at_position code end (compile_all es more) p exps used)
          ≡ translate s fuel
              (at_position code end more (after_all p es) (pushed p es exps) (marks_all es used))
    translate_trees no_trees p fuel more exps used f h g = refl
    translate_trees (more_trees e es) p fuel more exps used (f, fs) h g =
        translate_tree e p (fuel_for_all es fuel) (compile_all es more) exps used f
          (omega (arith, after_all_grows (after p e) es, h)) g
        ∙ translate_trees es (after p e) fuel more (shown p e ∷ exps) (marks e used) fs h g

  -- The code of a tree, at any place of a code and before any other code, is translated to the
  -- expression of the tree, which is put on top of the expressions there were; the locals that it
  -- names are marked as used.
  pub translate-compile :
      (e : Tree) (p fuel : ℕ) (more : List Bytecode) (exps : List ExpLoc) (used : List ℕ)
      → Fits s e
      → p + length (compile e []) ≤ suc end
      → 0 < end
      → translate s
          (length (compile e []) + fuel)
          (at_position code end (compile e more) p exps used)
        ≡ translate s fuel (
            at_position code end more (p + length (compile e [])) (shown p e ∷ exps) (marks e used))
  translate-compile e p fuel more exps used f h g =
      let turns : length (compile e []) + fuel ≡ fuel_for e fuel =
        fuel_for-length e fuel [] ∙ ap (fuel_for e) (omega arith) in
      let place : p + length (compile e []) ≡ after p e = omega (arith, length-compile e p []) in
      rw (turns, place) (translate_tree e p fuel more exps used f (omega arith) g)
