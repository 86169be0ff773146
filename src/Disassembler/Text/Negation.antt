-- ===== src/Disassembler/Text/Negation.antt =====
-- How the negation of an operation is written.
use move_language_server.Base.{ℕ, ◌≡◌, refl, ap, ◌∙◌, false, List, [], ◌∷◌, ◌++◌}
use move_language_server.Base.Text.{Bytes, codes}
use move_language_server.Disassembler.Outcome.{ok}
use move_language_server.Disassembler.Exp.{
  ret_code, ExpLoc, at, no_exps, more_exps, Op, Local, ret_exp,
}
use move_language_server.Disassembler.Translator.{Setting}
use move_language_server.Disassembler.Translator.Build.{basket}
use move_language_server.Disassembler.Translator.Run.{new_body, Body}
use move_language_server.Disassembler.Translator.Trees.{
  Leaf, LeafFits, u8_leaf, u64_leaf, u128_leaf, bool_leaf, copy_leaf, move_leaf, borrow_leaf,
  not_of, read_of, to_u8, to_u64, to_u128, Tree, leaf, unary_tree, binary_tree, call_tree, Trees,
  no_trees, more_trees, compile, after, shown, shown_all, marks, Fits,
}
use move_language_server.Disassembler.Translator.Trees.Bodies.{new_body-compile}
use move_language_server.Disassembler.Text.{Printer, text, texts, body_text}
use move_language_server.Disassembler.Words.{write_array, op_text, types_text, qualifier}

module _ (printer : Printer) (used : List ℕ) where
  abbrev written : ExpLoc → Bytes
  written = text printer used 0

  mutual
    unfolding shown text basket

    -- The text does not depend on where the code of a tree starts.
    shown_anywhere : (e : Tree) (p q : ℕ) → written (shown p e) ≡ written (shown q e)
    shown_anywhere (leaf l) p q = refl
    shown_anywhere (unary_tree not_of e) p q = ap (λ t. codes "!" ++ t) (shown_anywhere e p q)
    shown_anywhere (unary_tree read_of e) p q = ap (λ t. codes "*" ++ t) (shown_anywhere e p q)
    shown_anywhere (unary_tree to_u8 e) p q =
        ap (λ t. codes "(" ++ (t ++ (codes " as " ++ (codes "u8" ++ codes ")"))))
          (shown_anywhere e p q)
    shown_anywhere (unary_tree to_u64 e) p q =
        ap (λ t. codes "(" ++ (t ++ (codes " as " ++ (codes "u64" ++ codes ")"))))
          (shown_anywhere e p q)
    shown_anywhere (unary_tree to_u128 e) p q =
        ap (λ t. codes "(" ++ (t ++ (codes " as " ++ (codes "u128" ++ codes ")"))))
          (shown_anywhere e p q)
    shown_anywhere (binary_tree op l r) p q =
        ap (λ t. t ++ (op_text op ++ written (basket (shown (after p l) r))))
          (basket_anywhere l p q)
        ∙ ap (λ t. written (basket (shown q l)) ++ (op_text op ++ t))
            (basket_anywhere r (after p l) (after q l))
    shown_anywhere (call_tree index import name args) p q =
        ap
          (λ items.
            qualifier import
            ++ (name ++ (types_text [] ++ write_array (codes "(") (codes ", ") items (codes ")"))))
          (shown_all_anywhere args p q)

    basket_anywhere :
        (e : Tree) (p q : ℕ) → written (basket (shown p e)) ≡ written (basket (shown q e))
    basket_anywhere (leaf (u8_leaf n)) p q = refl
    basket_anywhere (leaf (u64_leaf n)) p q = refl
    basket_anywhere (leaf (u128_leaf n)) p q = refl
    basket_anywhere (leaf (bool_leaf b)) p q = refl
    basket_anywhere (leaf (copy_leaf i l)) p q = refl
    basket_anywhere (leaf (move_leaf i l)) p q = refl
    basket_anywhere (leaf (borrow_leaf b i l)) p q = refl
    basket_anywhere (unary_tree not_of e) p q = ap (λ t. codes "!" ++ t) (shown_anywhere e p q)
    basket_anywhere (unary_tree read_of e) p q = ap (λ t. codes "*" ++ t) (shown_anywhere e p q)
    basket_anywhere (unary_tree to_u8 e) p q =
        ap (λ t. codes "(" ++ (t ++ (codes " as " ++ (codes "u8" ++ codes ")"))))
          (shown_anywhere e p q)
    basket_anywhere (unary_tree to_u64 e) p q =
        ap (λ t. codes "(" ++ (t ++ (codes " as " ++ (codes "u64" ++ codes ")"))))
          (shown_anywhere e p q)
    basket_anywhere (unary_tree to_u128 e) p q =
        ap (λ t. codes "(" ++ (t ++ (codes " as " ++ (codes "u128" ++ codes ")"))))
          (shown_anywhere e p q)
    basket_anywhere (binary_tree op l r) p q =
        ap (λ t. codes "(" ++ (t ++ codes ")"))
          (ap (λ t. t ++ (op_text op ++ written (basket (shown (after p l) r))))
              (basket_anywhere l p q)
            ∙ ap (λ t. written (basket (shown q l)) ++ (op_text op ++ t))
                (basket_anywhere r (after p l) (after q l)))
    basket_anywhere (call_tree index import name args) p q =
        ap
          (λ items.
            qualifier import
            ++ (name ++ (types_text [] ++ write_array (codes "(") (codes ", ") items (codes ")"))))
          (shown_all_anywhere args p q)

    shown_all_anywhere :
        (es : Trees) (p q : ℕ)
        → texts printer used (shown_all p es) ≡ texts printer used (shown_all q es)
    shown_all_anywhere no_trees p q = refl
    shown_all_anywhere (more_trees e es) p q =
        ap (λ t. t ∷ texts printer used (shown_all (after p e) es)) (shown_anywhere e p q)
        ∙ ap (λ ts. written (shown q e) ∷ ts) (shown_all_anywhere es (after p e) (after q e))

  -- A body that returns one expression is written by the text of the expression.
  returned :
      (indent n m : ℕ) (locals : List Local) (e f : ExpLoc)
      → written e ≡ written f
      → body_text printer used indent locals
          (more_exps (at n (ret_exp (more_exps e no_exps) false)) no_exps)
        ≡ body_text printer used indent locals
            (more_exps (at m (ret_exp (more_exps f no_exps) false)) no_exps)
  unfolding body_text text
  returned indent n m locals e f h = rw h refl

  leaf_basket : (l : Leaf) (p : ℕ) → basket (shown p (leaf l)) ≡ shown p (leaf l)
  unfolding shown basket
  leaf_basket (u8_leaf n) p = refl
  leaf_basket (u64_leaf n) p = refl
  leaf_basket (u128_leaf n) p = refl
  leaf_basket (bool_leaf b) p = refl
  leaf_basket (copy_leaf i l) p = refl
  leaf_basket (move_leaf i l) p = refl
  leaf_basket (borrow_leaf b i l) p = refl

  negations :
      (l : Leaf) (op : Op) (r : Tree)
      → written (shown 0 (unary_tree not_of (binary_tree op (leaf l) r)))
        ≡ written (shown 0 (binary_tree op (unary_tree not_of (leaf l)) r))
  unfolding shown text basket
  negations l op r =
      ap (λ e. codes "!" ++ (written e ++ (op_text op ++ written (basket (shown 1 r)))))
        (leaf_basket l 0)
      ∙ ap (λ t. codes "!" ++ (written (shown 0 (leaf l)) ++ (op_text op ++ t)))
          (basket_anywhere r 1 2)

-- A function that returns the negation of an operation on a variable or a literal, and one that
-- returns the operation on the negated variable or literal, are disassembled to bodies that are
-- written as the same text.
pub body_text-negation :
    (printer : Printer) (indent : ℕ) (s : Setting) (l : Leaf) (op : Op) (r : Tree)
    → LeafFits s l
    → Fits s r
    → s.ret_len ≡ 1
    → (a : Body) × (b : Body) × (new_body s
          (compile (unary_tree not_of (binary_tree op (leaf l) r)) (ret_code ∷ []))
        ≡ ok a)
      × (new_body s (compile (binary_tree op (unary_tree not_of (leaf l)) r) (ret_code ∷ []))
          ≡ ok b)
      × (body_text printer a.used indent a.locals a.block_exps
          ≡ body_text printer b.used indent b.locals b.block_exps)
unfolding Fits marks
body_text-negation printer indent s l op r fl fr e =
    let first = new_body-compile s (unary_tree not_of (binary_tree op (leaf l) r)) (fl, fr) e in
    let second = new_body-compile s (binary_tree op (unary_tree not_of (leaf l)) r) (fl, fr) e in
    (
      _,
      _,
      first,
      second,
      returned printer (marks r (marks (leaf l) [])) indent _ _ s.locals _ _
          (negations printer (marks r (marks (leaf l) [])) l op r),
    )
