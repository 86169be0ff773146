-- ===== src/Disassembler/Translator/Ends.antt =====
-- The loop of a translation ends: fuel for one more turn than there are instructions is enough.
pub mod Builds
pub mod Loop
use move_language_server.Base.{
  ℕ, zero, suc, ◌+◌, ◌≤◌, ◌<◌, ◌≡◌, ◌≢◌, refl, arith, Bool, true, false, List, [], ◌∷◌, Option,
  none, some, ltb, leb, ◌==◌, length, get_elem?, Bool-cases, inl, inr,
}
use move_language_server.Disassembler.Outcome.{
  Outcome, ok, panic, out_of_fuel, ◌>>=◌, at_index, of_option, if_let,
}
use move_language_server.Disassembler.Unit
use move_language_server.Disassembler.Types.{
  signature_types, extract_type_signature, extract_struct_name, extract_type_signatures, Generic,
}
use move_language_server.Disassembler.Imports.{Imports}
use move_language_server.Disassembler.Unit.{
  SignatureToken, SignatureTokens, no_tokens, more_tokens, u8_token, bool_token,
}
use move_language_server.Disassembler.Exp.{Bytecode, Exp, ExpLoc}
use move_language_server.Disassembler.Translator.{
  Setting, Translator, module_import, extract_signature, local_var, identifiers_at, minus,
}

-- A computation that ends without asking for fuel.
unfoldable pub Settled : {A : Type 0} → Outcome A → Type 0
Settled (ok a) = Unit
Settled panic = Unit
Settled out_of_fuel = ⊥

-- One that ends with at most `bound` instructions left.
unfoldable pub Ended : {A : Type 0} → ℕ → Outcome (A × Translator) → Type 0
Ended bound (ok (a, t)) = length t.opcode_iter.iter ≤ bound
Ended bound panic = Unit
Ended bound out_of_fuel = ⊥

module _ {A : Type 0} {B : Type 0} where
  pub >>=-Settled :
      (m : Outcome A) (f : A → Outcome B)
      → Settled m
      → ((a : A) → Settled (f a))
      → Settled (m >>= f)
  unfolding Settled ◌>>=◌
  >>=-Settled (ok a) f h g = g a
  >>=-Settled panic f h g = tt
  >>=-Settled out_of_fuel f h g = h

  pub Settled-Ended :
      (bound : ℕ) (m : Outcome A) (f : A → Outcome (B × Translator))
      → Settled m
      → ((a : A) → Ended bound (f a))
      → Ended bound (m >>= f)
  unfolding Settled Ended ◌>>=◌
  Settled-Ended bound (ok a) f h g = g a
  Settled-Ended bound panic f h g = tt
  Settled-Ended bound out_of_fuel f h g = h

  pub >>=-Ended :
      (bound limit : ℕ) (m : Outcome (A × Translator))
      (f : A × Translator → Outcome (B × Translator))
      → Ended bound m
      → ((a : A) (t : Translator) → length t.opcode_iter.iter ≤ bound → Ended limit (f (a, t)))
      → Ended limit (m >>= f)
  unfolding Ended ◌>>=◌
  >>=-Ended bound limit (ok (a, t)) f h g = g a t h
  >>=-Ended bound limit panic f h g = tt
  >>=-Ended bound limit out_of_fuel f h g = absurd h

  pub if_let-Settled :
      (o : Option A) (missing : Outcome B) (f : A → Outcome B)
      → Settled missing
      → ((a : A) → Settled (f a))
      → Settled (if_let o missing f)
  unfolding if_let
  if_let-Settled none missing f h g = h
  if_let-Settled (some a) missing f h g = g a

  pub if_let-Ended :
      (bound : ℕ) (o : Option A) (missing : Outcome (B × Translator))
      (f : A → Outcome (B × Translator))
      → Ended bound missing
      → ((a : A) → Ended bound (f a))
      → Ended bound (if_let o missing f)
  unfolding if_let
  if_let-Ended bound none missing f h g = h
  if_let-Ended bound (some a) missing f h g = g a

pub ok-Settled : {A : Type 0} (a : A) → Settled (ok a)
unfolding Settled
ok-Settled a = tt

pub ok-Ended :
    {A : Type 0} (bound : ℕ) (a : A) (t : Translator)
    → length t.opcode_iter.iter ≤ bound
    → Ended bound (ok (a, t))
unfolding Ended
ok-Ended bound a t h = h

pub at_index-Settled : {A : Type 0} (table : List A) (index : ℕ) → Settled (at_index table index)
unfolding Settled at_index
at_index-Settled [] index = tt
at_index-Settled (a ∷ table) zero = tt
at_index-Settled (a ∷ table) (suc index) = at_index-Settled table index

pub minus-Settled : (a b : ℕ) → Settled (minus a b)
unfolding Settled minus
minus-Settled a b = elim (Bool-cases (leb b a)) [ inl y ↦ rw y tt | inr n ↦ rw n tt ]

-- An entry of the tables that only modules have.
pub module_only-Settled :
    {A : Type 0} (table : Unit.Definitions → List A) (u : Unit.CompiledUnit) (index : ℕ)
    → Settled (Unit.module_only table u index)
module_only-Settled table (Unit.script_unit t script) index = ok-Settled _
module_only-Settled table (Unit.module_unit t d) index =
    >>=-Settled _ _ (at_index-Settled _ _) (λ a. ok-Settled _)

module _ (unit : Unit.CompiledUnit) (imports : Imports) where
  pub extract_struct_name-Settled : (index : ℕ) → Settled (extract_struct_name unit imports index)
  unfolding extract_struct_name
  extract_struct_name-Settled index = >>=-Settled _ _ (at_index-Settled _ _) (λ h.
      >>=-Settled _ _ (at_index-Settled _ _) (λ m. >>=-Settled _ _ (at_index-Settled _ _) (λ n.
        >>=-Settled _ _ (at_index-Settled _ _)
          (λ a. >>=-Settled _ _ (at_index-Settled _ _) (λ y. ok-Settled _)))))

  mutual
    unfolding extract_type_signature

    pub type_signature-Settled :
        (ps : List Generic) (sign : SignatureToken)
        → Settled (extract_type_signature unit imports ps sign)
    type_signature-Settled ps Unit.bool_token = ok-Settled _
    type_signature-Settled ps Unit.u8_token = ok-Settled _
    type_signature-Settled ps Unit.u64_token = ok-Settled _
    type_signature-Settled ps Unit.u128_token = ok-Settled _
    type_signature-Settled ps Unit.address_token = ok-Settled _
    type_signature-Settled ps Unit.signer_token = ok-Settled _
    type_signature-Settled ps (Unit.vector_token sign) =
        >>=-Settled _ _ (type_signature-Settled ps sign) (λ y. ok-Settled _)
    type_signature-Settled ps (Unit.reference sign) =
        >>=-Settled _ _ (type_signature-Settled ps sign) (λ y. ok-Settled _)
    type_signature-Settled ps (Unit.mutable_reference sign) =
        >>=-Settled _ _ (type_signature-Settled ps sign) (λ y. ok-Settled _)
    type_signature-Settled ps (Unit.struct_token i) =
        >>=-Settled _ _ (extract_struct_name-Settled i) (λ y. ok-Settled _)
    type_signature-Settled ps (Unit.struct_instantiation i typed) =
        >>=-Settled _ _ (extract_struct_name-Settled i)
          (λ n. >>=-Settled _ _ (type_signatures-Settled ps typed) (λ y. ok-Settled _))
    type_signature-Settled ps (Unit.type_parameter i) =
        >>=-Settled _ _ (at_index-Settled _ _) (λ y. ok-Settled _)

    type_signatures-Settled :
        (ps : List Generic) (signs : SignatureTokens)
        → Settled (extract_type_signatures unit imports ps signs)
    type_signatures-Settled ps Unit.no_tokens = ok-Settled _
    type_signatures-Settled ps (Unit.more_tokens sign signs) =
        >>=-Settled _ _ (type_signature-Settled ps sign)
          (λ y. >>=-Settled _ _ (type_signatures-Settled ps signs) (λ ys. ok-Settled _))

  pub signature_types-Settled :
      (ps : List Generic) (signs : List SignatureToken)
      → Settled (signature_types unit imports ps signs)
  unfolding signature_types
  signature_types-Settled ps [] = ok-Settled _
  signature_types-Settled ps (sign ∷ signs) =
      >>=-Settled _ _ (type_signature-Settled ps sign)
        (λ y. >>=-Settled _ _ (signature_types-Settled ps signs) (λ ys. ok-Settled _))

module _ (s : Setting) where
  pub module_import-Settled : (h : Unit.ModuleHandle) → Settled (module_import s h)
  unfolding module_import
  module_import-Settled h =
      >>=-Settled _ _ (at_index-Settled _ h.name)
        (λ n. >>=-Settled _ _ (at_index-Settled _ h.address) (λ a. ok-Settled _))

  pub extract_signature-Settled : (i : Option ℕ) → Settled (extract_signature s i)
  unfolding extract_signature
  extract_signature-Settled none = ok-Settled _
  extract_signature-Settled (some i) =
      >>=-Settled _ _ (at_index-Settled _ i)
        (signature_types-Settled s.unit s.imports s.type_params)

  pub local_var-Settled : (i : ℕ) → Settled (local_var s i)
  unfolding local_var
  local_var-Settled i = at_index-Settled s.locals i

  pub identifiers_at-Settled : (names : List ℕ) → Settled (identifiers_at s names)
  unfolding identifiers_at
  identifiers_at-Settled [] = ok-Settled _
  identifiers_at-Settled (name ∷ names) =
      >>=-Settled _ _ (at_index-Settled _ name)
        (λ i. >>=-Settled _ _ (identifiers_at-Settled names) (λ is. ok-Settled _))
