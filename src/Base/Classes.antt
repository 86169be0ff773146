-- ===== src/Base/Classes.antt =====
-- Decidable equality as an interface: Rust's `Eq` on the keys of a map.
use Prim.Native.Nat.{ℕ}
use Prim.Native.String.{String}
use mathlib.Core.Path.{◌≡◌, refl, ap}
use mathlib.Core.Logic.{◌↔◌}
use mathlib.Core.List.{List, [], ◌∷◌}
use mathlib.Core.Bool.{Bool, true, false, ◌&&◌}
use text.Mathlib.Text.{◌==◌ as str_eq}
use text.Mathlib.TextEquality.{eq_iff}
use native.Mathlib.Omega.{arith}
use move_language_server.Base.Tests.{◌==◌ as nat_beq, ==_iff}

pub record Eq {ℓ} (A : Type ℓ) : Type ℓ where
  pub beq : A → A → Bool
  pub beq_iff : (a b : A) → (beq a b ≡ true) ↔ (a ≡ b)

abbrev pub eqb {ℓ} : {A : Type ℓ} ⦃e : Eq A⦄ → A → A → Bool
eqb ⦃e⦄ = e.beq

instance abbrev pub nat_eq : Eq ℕ
nat_eq = record { beq = nat_beq; beq_iff = ==_iff }

instance abbrev pub string_eq : Eq String
string_eq = record { beq = str_eq; beq_iff = eq_iff }

pub and_split : (x y : Bool) → x && y ≡ true → (x ≡ true) × (y ≡ true)
and_split x y h = ground arith

module _ {ℓ κ} {A : Type ℓ} {B : Type κ} ⦃e : Eq A⦄ ⦃d : Eq B⦄ where
  abbrev pub pair_beq : A × B → A × B → Bool
  pair_beq (a, b) (c, f) = e.beq a c && d.beq b f

  pub pair_beq_iff : (p q : A × B) → (pair_beq p q ≡ true) ↔ (p ≡ q)
  pair_beq_iff (a, b) (c, f) = (
    λ h. let (x, y) = and_split _ _ h in λ i. ((e.beq_iff a c).0 x i, (d.beq_iff b f).0 y i),
    λ p. rw (
      (e.beq_iff a c).1 (ap (λ (t : A × B). t.0) p),
      (d.beq_iff b f).1 (ap (λ (t : A × B). t.1) p),
    ),
  )

instance abbrev pub pair_eq {ℓ κ} : {A : Type ℓ} {B : Type κ} ⦃e : Eq A⦄ ⦃d : Eq B⦄ → Eq (A × B)
pair_eq = record { beq = pair_beq; beq_iff = pair_beq_iff }

-- A decision procedure as a test.
module _ {ℓ} {A : Type ℓ} (decide : Discrete A) where
  unfoldable pub test : A → A → Bool
  test a b = elim (decide a b) [ yes _ ↦ true | no _ ↦ false ]

  pub test_iff : (a b : A) → (test a b ≡ true) ↔ (a ≡ b)
  unfolding test
  test_iff a b =
      elim (decide a b) as (λ d. (elim d [ yes _ ↦ true | no _ ↦ false ] ≡ true) ↔ (a ≡ b)) [
        | yes e ↦ (λ _. e, λ _. refl)
        | no n ↦ (λ h. absurd (cc h), λ e. absurd (n e))
      ]

  abbrev pub of_discrete : Eq A
  of_discrete = record { beq = test; beq_iff = test_iff }

module _ {ℓ} {A : Type ℓ} ⦃e : Eq A⦄ where
  abbrev pub list_beq : List A → List A → Bool
  list_beq [] [] = true
  list_beq [] (y ∷ ys) = false
  list_beq (x ∷ xs) [] = false
  list_beq (x ∷ xs) (y ∷ ys) = e.beq x y && list_beq xs ys

  pub list_beq_iff : (xs ys : List A) → (list_beq xs ys ≡ true) ↔ (xs ≡ ys)
  list_beq_iff [] [] = (λ _. refl, λ _. refl)
  list_beq_iff [] (y ∷ ys) = (λ h. cc, λ h. cc)
  list_beq_iff (x ∷ xs) [] = (λ h. cc, λ h. cc)
  list_beq_iff (x ∷ xs) (y ∷ ys) = (
    λ h. let (p, q) = and_split _ _ h in λ i. (e.beq_iff x y).0 p i ∷ (list_beq_iff xs ys).0 q i,
    λ h.
        let p : x ≡ y = cc in
        let q : xs ≡ ys = cc in rw ((e.beq_iff x y).1 p, (list_beq_iff xs ys).1 q) refl,
  )

abbrev pub list_eq {ℓ} : {A : Type ℓ} ⦃e : Eq A⦄ → Eq (List A)
list_eq = record { beq = list_beq; beq_iff = list_beq_iff }
