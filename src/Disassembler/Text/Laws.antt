-- ===== src/Disassembler/Text/Laws.antt =====
-- What can be read from the texts of the disassembler.
use move_language_server.Base.{
  ℕ, zero, suc, ◌+◌, ◌-◌, ◌*◌, ◌/◌, ◌%◌, ◌≤◌, ◌<◌, ◌≡◌, ◌==◌, refl, sym, ap, ◌∙◌, arith, List, [],
  ◌∷◌, ◌++◌, ltb, Bool-cases, inl, inr, some, get_elem?,
}
use move_language_server.Base.Text.{Bytes}
use move_language_server.Disassembler.Types.{
  Generic, GenericPrefix, type_params_from, extract_type_params,
}
use move_language_server.Disassembler.Unit.{Kind}
use move_language_server.Disassembler.Words.{
  digits, decimal, unless_zero, prefix_text, generic_name_text,
}

-- The number that digits stand for, after others.
abbrev pub value_from : ℕ → Bytes → ℕ
value_from acc [] = acc
value_from acc (c ∷ cs) = value_from (acc * 10 + (c - 48)) cs

value_from-append :
    (acc : ℕ) (xs ys : Bytes) → value_from acc (xs ++ ys) ≡ value_from (value_from acc xs) ys
value_from-append acc [] ys = refl
value_from-append acc (x ∷ xs) ys = value_from-append (acc * 10 + (x - 48)) xs ys

value-digits : (fuel n : ℕ) → n < fuel → value_from 0 (digits fuel n) ≡ n
unfolding digits
value-digits zero n h = absurd (omega arith)
value-digits (suc fuel) n h = elim (Bool-cases (ltb n 10)) [
  | inl y ↦ rw y (omega arith)
  | inr b ↦
      let big : 10 ≤ n = ground arith in
      let last = value_from-append 0 (digits fuel (n / 10)) ((48 + n % 10) ∷ []) in
      let first = value-digits fuel (n / 10) (omega arith) in
      rw b (last ∙ ap (λ v. v * 10 + ((48 + n % 10) - 48)) first ∙ omega arith)
]

-- A number that is written in decimal reads back as itself.
pub value-decimal : (n : ℕ) → value_from 0 (decimal n) ≡ n
unfolding decimal
value-decimal n = value-digits (n + 1) n (omega arith)

value-unless_zero : (n : ℕ) → value_from 0 (unless_zero n) ≡ n
value-unless_zero n = elim (Bool-cases (n == 0)) [
  | inl y ↦ rw y (ground arith)
  | inr b ↦ rw b (value-decimal n)
]

some-injective : {A : Type 0} {a b : A} → some a ≡ some b → a ≡ b
some-injective h = cc

append-cancel : (xs ys zs : Bytes) → xs ++ ys ≡ xs ++ zs → ys ≡ zs
append-cancel [] ys zs h = h
append-cancel (x ∷ xs) ys zs h = append-cancel xs ys zs (cc h)

-- The type parameter at a place has the common prefix and the number of its place.
type_param_at :
    (k : ℕ) (generics : GenericPrefix) (params : List Kind) (i : ℕ) (g : Generic)
    → get_elem? (type_params_from k generics params) i ≡ some g
    → (g.prefix ≡ generics) × (g.index ≡ k + i)
unfolding type_params_from
type_param_at k generics [] i g h = cc
type_param_at k generics (p ∷ params) zero g h =
    let e = some-injective h in
    (ap (λ x. x.prefix) (sym e), ap (λ x. x.index) (sym e) ∙ omega arith)
type_param_at k generics (p ∷ params) (suc i) g h =
    let (e, f) = type_param_at (k + 1) generics params i g h in (e, omega arith)

-- The type parameters of a function or a structure are written under different names.
pub extract_type_params_apart :
    (params : List Kind) (generics : GenericPrefix) (i j : ℕ) (g h : Generic)
    → get_elem? (extract_type_params params generics) i ≡ some g
    → get_elem? (extract_type_params params generics) j ≡ some h
    → generic_name_text g ≡ generic_name_text h
    → i ≡ j
unfolding extract_type_params
extract_type_params_apart params generics i j g h a b e =
    let (p, x) = type_param_at 0 generics params i g a in
    let (q, y) = type_param_at 0 generics params j h b in
    let same : prefix_text generics ++ unless_zero g.index
        ≡ prefix_text generics ++ unless_zero h.index =
      rw p at (rw q at e) in
    let values =
      ap (value_from 0)
        (append-cancel (prefix_text generics) (unless_zero g.index) (unless_zero h.index) same) in
    omega (arith, value-unless_zero g.index, value-unless_zero h.index, values, x, y)
