-- ===== src/Base/Find.antt =====
-- What `starts_with` and `find` answer about a text.
use mathlib.Core.Option
use move_language_server.Base.Lists.{length, take, drop}
use move_language_server.Base.Text.{Bytes, starts_with, find}
use move_language_server.Base.Tests.{◌==◌, Bool-cases, if◌then◌else◌}
use Prim.Native.Nat.{ℕ, zero, suc, ◌+◌}
use mathlib.Core.Bool.{true}
use mathlib.Core.List.{[], ◌∷◌, ◌++◌}
use mathlib.Core.Logic.{inl, inr}
use mathlib.Core.Option.{Option, none, some}
use mathlib.Core.Path.{◌≡◌, refl, ap}
use native.Mathlib.Omega.{arith}

-- A text with a prefix is the prefix and the rest.
pub starts_with-split : (s p : Bytes) → starts_with s p ≡ true → s ≡ p ++ drop (length p) s
unfolding starts_with
starts_with-split s [] h = refl
starts_with-split [] (c ∷ p) h = cc
starts_with-split (b ∷ s) (c ∷ p) h = ground (arith, starts_with-split s p)

map-suc-zero : (o : Option ℕ) → Option.map suc o ≡ some zero → ⊥
map-suc-zero o h = ground arith

map-suc-suc : (o : Option ℕ) (i : ℕ) → Option.map suc o ≡ some (suc i) → o ≡ some i
map-suc-suc o i h = ground arith

-- An occurrence that is found is there.
pub find-split :
    (p s : Bytes) (i j : ℕ) → i + length p ≡ j → find p s ≡ some i → s ≡ take i s ++ (p ++ drop j s)
unfolding find
find-split p [] zero j e h = elim (Bool-cases (starts_with [] p)) [
  | inl y ↦ let e' : length p ≡ j = omega arith in rw (← e') (starts_with-split [] p y)
  | inr n ↦ cc (h, n)
]
find-split p [] (suc i) j e h = elim (Bool-cases (starts_with [] p)) [
  | inl y ↦ absurd (ground arith)
  | inr n ↦ absurd (ground arith)
]
find-split p (b ∷ s) zero j e h = elim (Bool-cases (starts_with (b ∷ s) p)) [
  | inl y ↦ let e' : length p ≡ j = omega arith in rw (← e') (starts_with-split (b ∷ s) p y)
  | inr n ↦ absurd (map-suc-zero (find p s) (rw n at h))
]
find-split p (b ∷ s) (suc i) zero e h = absurd (omega arith)
find-split p (b ∷ s) (suc i) (suc j) e h = elim (Bool-cases (starts_with (b ∷ s) p)) [
  | inl y ↦ absurd (ground arith)
  | inr n ↦
      ap (λ t. b ∷ t) (find-split p s i j (omega arith) (map-suc-suc (find p s) i (rw n at h)))
]

-- The bytes of a text that are `c`.
unfoldable pub count : ℕ → Bytes → ℕ
count c [] = 0
count c (b ∷ s) = (if b == c then 1 else 0) + count c s

pub count-append : (c : ℕ) (s t : Bytes) → count c (s ++ t) ≡ count c s + count c t
unfolding count
count-append c [] t = omega arith
count-append c (b ∷ s) t = omega (arith, count-append c s t)
