-- ===== src/Disassembler/Translator/Trees/Assembly.antt =====
-- Code to expressions and back: what an expression compiles to, for the expressions that trees are
-- shown as.
use move_language_server.Base.{ℕ, ◌≡◌, refl, ap, ◌∙◌, true, false, List, [], ◌∷◌, Option, length}
use move_language_server.Base.Text.{Bytes}
use move_language_server.Disassembler.Outcome.{ok}
use move_language_server.Disassembler.Imports.{ImportName}
use move_language_server.Disassembler.Exp
use move_language_server.Disassembler.Exp.{
  Bytecode, Exp, ExpLoc, at, ExpLocs, no_exps, more_exps, Op, Local,
}
use move_language_server.Disassembler.Translator.{Setting}
use move_language_server.Disassembler.Translator.Build.{basket}
use move_language_server.Disassembler.Translator.Run.{new_body, Body}
use move_language_server.Disassembler.Translator.Trees.{
  Leaf, u8_leaf, u64_leaf, u128_leaf, bool_leaf, copy_leaf, move_leaf, borrow_leaf, Unary, not_of,
  read_of, to_u8, to_u64, to_u128, Tree, leaf, unary_tree, binary_tree, call_tree, Trees, no_trees,
  more_trees, leaf_code, unary_code, op_code, compile, compile_all, after, leaf_exp, unary_exp,
  shown, shown_all, marks, Fits,
}
use move_language_server.Disassembler.Translator.Trees.Bodies.{new_body-compile}

-- Which local and which function a name stands for.
module _ (local_index : Local → ℕ) (call_index : Option ImportName → Bytes → ℕ) where
  -- Operands first; parentheses and locations leave no trace, and what no tree is shown as has no
  -- code here.
  unfoldable mutual
    pub assemble : ExpLoc → List Bytecode → List Bytecode
    assemble (at index exp) more = assemble_exp exp more

    pub assemble_exp : Exp → List Bytecode → List Bytecode
    assemble_exp (Exp.ld_exp (Exp.u8 n)) more = Exp.ld_u8_code n ∷ more
    assemble_exp (Exp.ld_exp (Exp.u64 n)) more = Exp.ld_u64_code n ∷ more
    assemble_exp (Exp.ld_exp (Exp.u128 n)) more = Exp.ld_u128_code n ∷ more
    assemble_exp (Exp.ld_exp (Exp.bool_ld true)) more = Exp.ld_true_code ∷ more
    assemble_exp (Exp.ld_exp (Exp.bool_ld false)) more = Exp.ld_false_code ∷ more
    assemble_exp (Exp.local_exp explicit Exp.copy_access l) more =
        Exp.copy_loc_code (local_index l) ∷ more
    assemble_exp (Exp.local_exp explicit Exp.move_access l) more =
        Exp.move_loc_code (local_index l) ∷ more
    assemble_exp (Exp.ref_exp true l) more = Exp.mut_borrow_loc_code (local_index l) ∷ more
    assemble_exp (Exp.ref_exp false l) more = Exp.imm_borrow_loc_code (local_index l) ∷ more
    assemble_exp (Exp.not_exp e) more = assemble e (Exp.not_code ∷ more)
    assemble_exp (Exp.deref_exp e) more = assemble e (Exp.read_ref_code ∷ more)
    assemble_exp (Exp.cast_exp e Exp.u8_type) more = assemble e (Exp.cast_u8_code ∷ more)
    assemble_exp (Exp.cast_exp e Exp.u64_type) more = assemble e (Exp.cast_u64_code ∷ more)
    assemble_exp (Exp.cast_exp e Exp.u128_type) more = assemble e (Exp.cast_u128_code ∷ more)
    assemble_exp (Exp.basket_exp e) more = assemble e more
    assemble_exp (Exp.binary_exp l op r) more = assemble l (assemble r (op_code op ∷ more))
    assemble_exp (Exp.plain_exp import name [] args) more =
        assemble_all args (Exp.call_code (call_index import name) ∷ more)
    assemble_exp (Exp.ret_exp exps explicit) more = assemble_all exps (Exp.ret_code ∷ more)
    assemble_exp _ more = more

    pub assemble_all : ExpLocs → List Bytecode → List Bytecode
    assemble_all no_exps more = more
    assemble_all (more_exps e es) more = assemble e (assemble_all es more)

  abbrev pub LeafNamed : Leaf → Type 0
  LeafNamed (copy_leaf i l) = local_index l ≡ i
  LeafNamed (move_leaf i l) = local_index l ≡ i
  LeafNamed (borrow_leaf is_mut i l) = local_index l ≡ i
  LeafNamed _ = Unit

  -- The names of a tree stand for what they stand for in its code.
  unfoldable mutual
    pub Named : Tree → Type 0
    Named (leaf l) = LeafNamed l
    Named (unary_tree u e) = Named e
    Named (binary_tree op l r) = Named l × Named r
    Named (call_tree index import name args) = (call_index import name ≡ index) × AllNamed args

    pub AllNamed : Trees → Type 0
    AllNamed no_trees = Unit
    AllNamed (more_trees e es) = Named e × AllNamed es

  assemble-basket : (e : ExpLoc) (more : List Bytecode) → assemble (basket e) more ≡ assemble e more
  unfolding basket assemble
  assemble-basket (at index (Exp.binary_exp l op r)) more = refl
  assemble-basket (at index e) more = refl

  assemble-leaf :
      (l : Leaf) (p : ℕ) (more : List Bytecode)
      → LeafNamed l
      → assemble (at p (leaf_exp l)) more ≡ leaf_code l ∷ more
  unfolding assemble
  assemble-leaf (u8_leaf n) p more h = refl
  assemble-leaf (u64_leaf n) p more h = refl
  assemble-leaf (u128_leaf n) p more h = refl
  assemble-leaf (bool_leaf true) p more h = refl
  assemble-leaf (bool_leaf false) p more h = refl
  assemble-leaf (copy_leaf i l) p more h = ap (λ n. Exp.copy_loc_code n ∷ more) h
  assemble-leaf (move_leaf i l) p more h = ap (λ n. Exp.move_loc_code n ∷ more) h
  assemble-leaf (borrow_leaf true i l) p more h = ap (λ n. Exp.mut_borrow_loc_code n ∷ more) h
  assemble-leaf (borrow_leaf false i l) p more h = ap (λ n. Exp.imm_borrow_loc_code n ∷ more) h

  assemble-unary :
      (u : Unary) (p : ℕ) (e : ExpLoc) (more : List Bytecode)
      → assemble (at p (unary_exp u e)) more ≡ assemble e (unary_code u ∷ more)
  unfolding assemble
  assemble-unary not_of p e more = refl
  assemble-unary read_of p e more = refl
  assemble-unary to_u8 p e more = refl
  assemble-unary to_u64 p e more = refl
  assemble-unary to_u128 p e more = refl

  mutual
    unfolding assemble shown compile Named

    assemble-shown :
        (e : Tree) (p : ℕ) (more : List Bytecode)
        → Named e
        → assemble (shown p e) more ≡ compile e more
    assemble-shown (leaf l) p more h = assemble-leaf l p more h
    assemble-shown (unary_tree u e) p more h =
        assemble-unary u (after p e) (shown p e) more ∙ assemble-shown e p (unary_code u ∷ more) h
    assemble-shown (binary_tree op l r) p more (hl, hr) =
        let q = after p l in
        assemble-basket (shown p l) (assemble (basket (shown q r)) (op_code op ∷ more))
        ∙ ap (assemble (shown p l)) (
            assemble-basket (shown q r) (op_code op ∷ more)
            ∙ assemble-shown r q (op_code op ∷ more) hr)
        ∙ assemble-shown l p (compile r (op_code op ∷ more)) hl
    assemble-shown (call_tree index import name args) p more (c, h) =
        ap (λ n. assemble_all (shown_all p args) (Exp.call_code n ∷ more)) c
        ∙ assemble_all-shown args p (Exp.call_code index ∷ more) h

    assemble_all-shown :
        (es : Trees) (p : ℕ) (more : List Bytecode)
        → AllNamed es
        → assemble_all (shown_all p es) more ≡ compile_all es more
    assemble_all-shown no_trees p more h = refl
    assemble_all-shown (more_trees e es) p more (h, hs) =
        ap (assemble (shown p e)) (assemble_all-shown es (after p e) more hs)
        ∙ assemble-shown e p (compile_all es more) h

  -- Where the names of locals and functions are unambiguous, the code of a function that returns
  -- an expression without branches is disassembled to a body that assembles to just that code.
  pub assemble_all-new_body :
      (s : Setting) (e : Tree)
      → Fits s e
      → Named e
      → s.ret_len ≡ 1
      → (body : Body) × (new_body s (compile e (Exp.ret_code ∷ [])) ≡ ok body)
        × (assemble_all body.block_exps [] ≡ compile e (Exp.ret_code ∷ []))
  unfolding assemble
  assemble_all-new_body s e f n r = (
    record {
      block_exps =
          more_exps (at (length (compile e [])) (Exp.ret_exp (more_exps (shown 0 e) no_exps) false))
            no_exps;
      locals = s.locals;
      used = marks e [];
    },
    new_body-compile s e f r,
    assemble-shown e 0 (Exp.ret_code ∷ []) n,
  )
