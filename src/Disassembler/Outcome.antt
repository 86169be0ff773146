-- ===== src/Disassembler/Outcome.antt =====
-- How a call of the disassembler ends: with a result, in a panic (an index out of range, a
-- subtraction below zero), or, in the model alone, for want of fuel.
use move_language_server.Base.{◌≡◌, refl, Option, none, some, List, ℕ, get_elem?}

pub data Outcome {ℓ} (A : Type ℓ) : Type ℓ where
  ok : A → Outcome A
  panic : Outcome A
  out_of_fuel : Outcome A

infixl 5 ◌>>=◌
unfoldable pub ◌>>=◌ {ℓ κ} : {A : Type ℓ} {B : Type κ} → Outcome A → (A → Outcome B) → Outcome B
ok a >>= f = f a
panic >>= f = panic
out_of_fuel >>= f = out_of_fuel

abbrev pub of_option {ℓ} : {A : Type ℓ} → Option A → Outcome A
of_option none = panic
of_option (some a) = ok a

-- `table[index]`
unfoldable pub at_index {ℓ} : {A : Type ℓ} → List A → ℕ → Outcome A
at_index table index = of_option (get_elem? table index)

pub >>=-eq-ok {ℓ κ} :
    {A : Type ℓ} {B : Type κ} (m : Outcome A) (f : A → Outcome B) {b : B}
    → (m >>= f) ≡ ok b
    → (a : A) × (m ≡ ok a) × (f a ≡ ok b)
unfolding ◌>>=◌
>>=-eq-ok (ok a) f h = (a, refl, h)
>>=-eq-ok panic f h = cc
>>=-eq-ok out_of_fuel f h = cc

-- `if let Some(a) = found { f(a) } else { missing }`
unfoldable pub if_let {ℓ κ} : {A : Type ℓ} {B : Type κ} → Option A → B → (A → B) → B
if_let none missing f = missing
if_let (some a) missing f = f a
