-- ===== src/Disassembler/Imports/Texts.antt =====
-- The texts of imports, for modules without underscores in their names.
use mathlib.Core.Path.{subst}
use move_language_server.Base.{
  ℕ, ◌≡◌, ◌≢◌, refl, sym, ap, ◌∙◌, [], ◌∷◌, ◌++◌, some, append-nil, All,
}
use move_language_server.Base.Assoc.{lookup}
use move_language_server.Base.Classes.{nat_eq}
use move_language_server.Base.Text.{Bytes}
use move_language_server.Disassembler.Outcome.{ok}
use move_language_server.Disassembler.Unit.{CompiledUnit}
use move_language_server.Disassembler.Imports.{
  ImportName, plain_name, alias, Imports, name_map, new_imports, get_import,
}
use move_language_server.Disassembler.Imports.Laws.{
  number, module_of, new_imports-Named, get_import-name_map,
}
use move_language_server.Disassembler.Text.Laws.{value_from, value-decimal}
use move_language_server.Disassembler.Words.{decimal, import_text}

abbrev underscore : ℕ
underscore = b'_'

abbrev pub NoUnderscore : Bytes → Type 0
NoUnderscore = All (λ c. c ≢ underscore)

-- What is written behind the name of the module.
abbrev suffix : ImportName → Bytes
suffix (plain_name name) = []
suffix (alias name k) = underscore ∷ decimal k

import_text-suffix : (i : ImportName) → import_text i ≡ module_of i ++ suffix i
unfolding import_text
import_text-suffix (plain_name name) = sym (append-nil name)
import_text-suffix (alias name k) = refl

-- Nothing, or an underscore and more.
abbrev Tail : Bytes → Type 0
Tail [] = Unit
Tail (c ∷ s) = c ≡ underscore

suffix-Tail : (i : ImportName) → Tail (suffix i)
suffix-Tail (plain_name name) = tt
suffix-Tail (alias name k) = refl

split_at_underscore :
    (n m x y : Bytes)
    → NoUnderscore n
    → NoUnderscore m
    → Tail x
    → Tail y
    → n ++ x ≡ m ++ y
    → (n ≡ m) × (x ≡ y)
split_at_underscore [] [] x y f g t u h = (refl, h)
split_at_underscore [] (c ∷ m) [] y f g t u h = cc h
split_at_underscore [] (c ∷ m) (d ∷ x) y f (g, gs) t u h =
    let e : d ≡ c = cc h in absurd (g (sym e ∙ t))
split_at_underscore (c ∷ n) [] x [] f g t u h = cc h
split_at_underscore (c ∷ n) [] x (d ∷ y) (f, fs) g t u h =
    let e : c ≡ d = cc h in absurd (f (e ∙ u))
split_at_underscore (c ∷ n) (d ∷ m) x y (f, fs) (g, gs) t u h =
    let e : c ≡ d = cc h in
    let rest : n ++ x ≡ m ++ y = cc h in
    let (a, b) = split_at_underscore n m x y fs gs t u rest in (cc (e, a), b)

suffix-number : (i j : ImportName) → suffix i ≡ suffix j → number i ≡ number j
suffix-number (plain_name n) (plain_name m) h = refl
suffix-number (plain_name n) (alias m k) h = cc h
suffix-number (alias n k) (plain_name m) h = cc h
suffix-number (alias n k) (alias m l) h =
    let same : decimal k ≡ decimal l = cc h in
    sym (value-decimal k) ∙ ap (value_from 0) same ∙ value-decimal l

-- Modules without underscores in their names that are imported by a unit and differ in the address or in
-- the name are imported under different texts.
pub new_imports_apart :
    (unit : CompiledUnit) (imports : Imports) (a b : ℕ) (n m : Bytes) (i j : ImportName)
    → new_imports unit ≡ ok imports
    → get_import imports a n ≡ some i
    → get_import imports b m ≡ some j
    → NoUnderscore n
    → NoUnderscore m
    → import_text i ≡ import_text j
    → (a ≡ b) × (n ≡ m)
new_imports_apart unit imports a b n m i j h g k free free' texts =
    let named = new_imports-Named unit imports h in
    let g' = get_import-name_map imports a n i g in
    let k' = get_import-name_map imports b m j k in
    let (of_n, _) = (named n).below a i g' in
    let (of_m, _) = (named m).below b j k' in
    let (same, same_suffix) =
      split_at_underscore n m (suffix i) (suffix j) free free' (suffix-Tail i) (suffix-Tail j) (
        ap (λ t. t ++ suffix i) (sym of_n)
        ∙ sym (import_text-suffix i)
        ∙ texts
        ∙ import_text-suffix j
        ∙ ap (λ t. t ++ suffix j) of_m) in
    (
      (named n).apart a b i j g' (subst (λ x. lookup b (name_map imports x) ≡ some j) (sym same) k')
          (suffix-number i j same_suffix),
      same,
    )
