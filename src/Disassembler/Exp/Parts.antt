-- ===== src/Disassembler/Exp/Parts.antt =====
-- The instructions of an expression and of its parts.
use move_language_server.Base.{
  ℕ, List, [], ◌∷◌, ◌++◌, Option, none, some, All, All-append, inl, inr,
}
use move_language_server.Disassembler.Exp.{
  Range, find_range, range, ranges, field_ranges, block_range, source_range, Exp, ExpLoc, ExpLocs,
  PackFields, Block, at, no_exps, more_exps, no_fields, more_fields, block, abort_exp, not_exp,
  basket_exp, deref_exp, ld_exp, error_exp, local_exp, cast_exp, binary_exp, build_in_exp,
  plain_exp, let_exp, pack_exp, unpack_exp, ret_exp, field_ref_exp, ref_exp, write_ref_exp,
  loop_exp, while_exp, if_exp, if_else_exp, break_exp, continue_exp, nop_exp,
}
use move_language_server.Disassembler.Exp.Ranges.{
  InRange, InSome, find_range-InRange, widen-InRange, widen-index,
}

-- The index of an expression and those of its parts; the source of an unpacking is no part.
unfoldable mutual
  pub indexes : ExpLoc → List ℕ
  indexes (at index exp) = index ∷ exp_indexes exp

  pub all_indexes : ExpLocs → List ℕ
  all_indexes no_exps = []
  all_indexes (more_exps exp exps) = indexes exp ++ all_indexes exps

  pub field_indexes : PackFields → List ℕ
  field_indexes no_fields = []
  field_indexes (more_fields name value fields) = indexes value ++ field_indexes fields

  pub block_indexes : Block → List ℕ
  block_indexes (block exps basket) = all_indexes exps

  pub exp_indexes : Exp → List ℕ
  exp_indexes (abort_exp e) = indexes e
  exp_indexes (cast_exp e ty) = indexes e
  exp_indexes (basket_exp e) = indexes e
  exp_indexes (not_exp e) = indexes e
  exp_indexes (let_exp l e) = indexes e
  exp_indexes (field_ref_exp is_mut name e) = indexes e
  exp_indexes (deref_exp e) = indexes e
  exp_indexes (error_exp opcode) = []
  exp_indexes (ld_exp ld) = []
  exp_indexes (local_exp explicit access l) = []
  exp_indexes (ref_exp is_mut l) = []
  exp_indexes break_exp = []
  exp_indexes continue_exp = []
  exp_indexes nop_exp = []
  exp_indexes (binary_exp l sign r) = indexes l ++ indexes r
  exp_indexes (write_ref_exp l r) = indexes l ++ indexes r
  exp_indexes (build_in_exp kind name type_params params) = all_indexes params
  exp_indexes (plain_exp import name type_params params) = all_indexes params
  exp_indexes (pack_exp import name type_params fields) = field_indexes fields
  exp_indexes (unpack_exp import name type_params fields source) = field_indexes fields
  exp_indexes (ret_exp exps explicit) = all_indexes exps
  exp_indexes (loop_exp b) = block_indexes b
  exp_indexes (while_exp e b) = indexes e ++ block_indexes b
  exp_indexes (if_exp e t) = indexes e ++ block_indexes t
  exp_indexes (if_else_exp e t f) = indexes e ++ (block_indexes t ++ block_indexes f)

All-map : {P Q : ℕ → Type 0} (xs : List ℕ) → ((x : ℕ) → P x → Q x) → All P xs → All Q xs
All-map [] f a = tt
All-map (x ∷ xs) f (p, a) = (f x p, All-map xs f a)

-- Lists of indexes that lie in the ranges of one list, in the range of the list.
in_range :
    (rs : List (Option Range)) (xs : List ℕ) → All (InSome rs) xs → All (InRange (find_range rs)) xs
in_range rs xs a = All-map xs (find_range-InRange rs) a

first_in :
    (r : Option Range) (rs : List (Option Range)) (xs : List ℕ)
    → All (InRange r) xs
    → All (InSome (r ∷ rs)) xs
first_in r rs xs a = All-map xs (λ x h. inl h) a

later_in :
    (r : Option Range) (rs : List (Option Range)) (xs : List ℕ)
    → All (InSome rs) xs
    → All (InSome (r ∷ rs)) xs
later_in r rs xs a = All-map xs (λ x h. inr h) a

joined :
    (r : Option Range) (rs : List (Option Range)) (xs ys : List ℕ)
    → All (InRange r) xs
    → All (InSome rs) ys
    → All (InRange (find_range (r ∷ rs))) (xs ++ ys)
joined r rs xs ys a b =
    in_range (r ∷ rs) (xs ++ ys) (All-append _ xs ys (first_in r rs xs a) (later_in r rs ys b))

mutual
  unfolding indexes range

  range_holds : (e : ExpLoc) → All (InRange (some (range e))) (indexes e)
  range_holds (at index exp) = (
    widen-index index (source_range exp),
    All-map (exp_indexes exp) (λ x h. widen-InRange index x (source_range exp) h)
        (exp_indexes-InRange exp),
  )

  all_indexes-InSome : (es : ExpLocs) → All (InSome (ranges es)) (all_indexes es)
  all_indexes-InSome no_exps = tt
  all_indexes-InSome (more_exps e es) =
      All-append _ (indexes e) (all_indexes es)
        (first_in (some (range e)) (ranges es) (indexes e) (range_holds e))
        (later_in (some (range e)) (ranges es) (all_indexes es) (all_indexes-InSome es))

  field_indexes-InSome : (fs : PackFields) → All (InSome (field_ranges fs)) (field_indexes fs)
  field_indexes-InSome no_fields = tt
  field_indexes-InSome (more_fields name e fs) =
      All-append _ (indexes e) (field_indexes fs)
        (first_in (some (range e)) (field_ranges fs) (indexes e) (range_holds e))
        (later_in (some (range e)) (field_ranges fs) (field_indexes fs) (field_indexes-InSome fs))

  block_indexes-InRange : (b : Block) → All (InRange (block_range b)) (block_indexes b)
  block_indexes-InRange (block exps basket) =
      in_range (ranges exps) (all_indexes exps) (all_indexes-InSome exps)

  exp_indexes-InRange : (e : Exp) → All (InRange (source_range e)) (exp_indexes e)
  exp_indexes-InRange (abort_exp e) = range_holds e
  exp_indexes-InRange (cast_exp e ty) = range_holds e
  exp_indexes-InRange (basket_exp e) = range_holds e
  exp_indexes-InRange (not_exp e) = range_holds e
  exp_indexes-InRange (let_exp l e) = range_holds e
  exp_indexes-InRange (field_ref_exp is_mut name e) = range_holds e
  exp_indexes-InRange (deref_exp e) = range_holds e
  exp_indexes-InRange (error_exp opcode) = tt
  exp_indexes-InRange (ld_exp ld) = tt
  exp_indexes-InRange (local_exp explicit access l) = tt
  exp_indexes-InRange (ref_exp is_mut l) = tt
  exp_indexes-InRange break_exp = tt
  exp_indexes-InRange continue_exp = tt
  exp_indexes-InRange nop_exp = tt
  exp_indexes-InRange (binary_exp l sign r) =
      joined (some (range l)) (some (range r) ∷ []) (indexes l) (indexes r) (range_holds l)
        (first_in (some (range r)) [] (indexes r) (range_holds r))
  exp_indexes-InRange (write_ref_exp l r) =
      joined (some (range l)) (some (range r) ∷ []) (indexes l) (indexes r) (range_holds l)
        (first_in (some (range r)) [] (indexes r) (range_holds r))
  exp_indexes-InRange (build_in_exp kind name type_params params) =
      in_range (ranges params) (all_indexes params) (all_indexes-InSome params)
  exp_indexes-InRange (plain_exp import name type_params params) =
      in_range (ranges params) (all_indexes params) (all_indexes-InSome params)
  exp_indexes-InRange (pack_exp import name type_params fields) =
      in_range (field_ranges fields) (field_indexes fields) (field_indexes-InSome fields)
  exp_indexes-InRange (unpack_exp import name type_params fields source) =
      in_range (field_ranges fields) (field_indexes fields) (field_indexes-InSome fields)
  exp_indexes-InRange (ret_exp exps explicit) =
      in_range (ranges exps) (all_indexes exps) (all_indexes-InSome exps)
  exp_indexes-InRange (loop_exp b) = block_indexes-InRange b
  exp_indexes-InRange (while_exp e b) =
      joined (some (range e)) (block_range b ∷ []) (indexes e) (block_indexes b) (range_holds e)
        (first_in (block_range b) [] (block_indexes b) (block_indexes-InRange b))
  exp_indexes-InRange (if_exp e t) =
      joined (some (range e)) (block_range t ∷ none ∷ []) (indexes e) (block_indexes t)
        (range_holds e)
        (first_in (block_range t) (none ∷ []) (block_indexes t) (block_indexes-InRange t))
  exp_indexes-InRange (if_else_exp e t f) =
      joined (some (range e)) (block_range t ∷ block_range f ∷ []) (indexes e)
        (block_indexes t ++ block_indexes f) (range_holds e)
        (All-append _ (block_indexes t) (block_indexes f)
          (first_in (block_range t) (block_range f ∷ []) (block_indexes t)
            (block_indexes-InRange t))
          (later_in (block_range t) (block_range f ∷ []) (block_indexes f)
            (first_in (block_range f) [] (block_indexes f) (block_indexes-InRange f))))

-- The range of an expression, by which the end of a loop is recognised, holds the index of each
-- of its parts, however deep, but for the source of an unpacking.
pub indexes-InRange : (e : ExpLoc) → All (InRange (some (range e))) (indexes e)
indexes-InRange e = range_holds e
