-- ===== src/Transaction/Outcome.antt =====
-- How a call of the transaction builder ends: with a result, an error, a panic (an `unwrap` of an
-- error, a `remove` from an empty vector), or, in the model alone, for want of fuel.
use move_language_server.Base.{Bool, true, false, Option, none, some, ◌≡◌, refl}

pub data Error : Type 0 where
  unsupported_type bad_identifier : Error
  lexer_error no_function_identifier unclosed_type_parameters no_left_paren : Error
  unclosed_arguments : Error
  no_left_bracket unclosed_vector bad_element : Error
  missing_argument bad_argument unexpected_parameter : Error
  file_not_found script_not_found several_scripts ambiguous_scripts : Error
  not_loaded not_built wrong_type_parameters wrong_arguments : Error

pub data Outcome {ℓ} (A : Type ℓ) : Type ℓ where
  ok : A → Outcome A
  failed : Error → Outcome A
  panic : Outcome A
  out_of_fuel : Outcome A

infixl 5 ◌>>=◌
abbrev pub ◌>>=◌ {ℓ κ} : {A : Type ℓ} {B : Type κ} → Outcome A → (A → Outcome B) → Outcome B
panic >>= next = panic
out_of_fuel >>= next = out_of_fuel
failed error >>= next = failed error
ok result >>= next = next result

-- A check before the rest.
infixl 5 ◌>>◌
abbrev pub ◌>>◌ {κ} : {B : Type κ} → Outcome (Unit {0}) → Outcome B → Outcome B
check >> rest = check >>= λ _. rest

-- `if !test { return Err(error) }`
abbrev pub ensure : Bool → Error → Outcome (Unit {0})
ensure false e = failed e
ensure true e = ok tt

abbrev pub of_option {ℓ} : {A : Type ℓ} → Option A → Error → Outcome A
of_option none e = failed e
of_option (some a) e = ok a

-- `.unwrap()` of a result
abbrev pub unwrap {ℓ} : {A : Type ℓ} → Outcome A → Outcome A
unwrap (ok a) = ok a
unwrap (failed e) = panic
unwrap panic = panic
unwrap out_of_fuel = out_of_fuel

pub >>=-eq-ok {ℓ κ} :
    {A : Type ℓ} {B : Type κ} (m : Outcome A) (next : A → Outcome B) {b : B}
    → (m >>= next) ≡ ok b
    → (a : A) × (m ≡ ok a) × (next a ≡ ok b)
>>=-eq-ok panic next h = cc
>>=-eq-ok out_of_fuel next h = cc
>>=-eq-ok (failed error) next h = cc
>>=-eq-ok (ok a) next h = (a, refl, h)

pub ensure-eq-ok : (b : Bool) (e : Error) → ensure b e ≡ ok tt → b ≡ true
ensure-eq-ok true e h = refl
ensure-eq-ok false e h = cc

pub of_option-eq-ok {ℓ} :
    {A : Type ℓ} (o : Option A) (e : Error) {a : A} → of_option o e ≡ ok a → o ≡ some a
of_option-eq-ok none e h = cc
of_option-eq-ok (some a) e h = cc
