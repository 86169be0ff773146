-- ===== src/Disassembler/Exp/Ranges.antt =====
-- The range of an expression holds the instructions of its parts.
use move_language_server.Base.{
  ℕ, ◌≤◌, arith, List, [], ◌∷◌, Option, none, some, ltb, All, Bool-cases, inl, inr, ◌⊎◌,
}
use move_language_server.Disassembler.Exp.{
  Range, insert_end, sorted, ends, last, first_and_last, find_range, widen,
}

-- x lies between two of the ends.
abbrev AtLeast : ℕ → List ℕ → Type 0
AtLeast x [] = ⊥
AtLeast x (y ∷ ys) = (y ≤ x) ⊎ AtLeast x ys

abbrev AtMost : ℕ → List ℕ → Type 0
AtMost x [] = ⊥
AtMost x (y ∷ ys) = (x ≤ y) ⊎ AtMost x ys

abbrev Ascending : List ℕ → Type 0
Ascending [] = Unit
Ascending (y ∷ ys) = All (λ z. y ≤ z) ys × Ascending ys

All-weaken : (x y : ℕ) (zs : List ℕ) → x ≤ y → All (λ z. y ≤ z) zs → All (λ z. x ≤ z) zs
All-weaken x y [] h a = tt
All-weaken x y (z ∷ zs) h (p, a) = (omega arith, All-weaken x y zs h a)

insert_end-All : (P : ℕ → Type 0) (x : ℕ) (ys : List ℕ) → P x → All P ys → All P (insert_end x ys)
unfolding insert_end
insert_end-All P x [] p a = (p, tt)
insert_end-All P x (y ∷ ys) p (q, a) = elim (Bool-cases (ltb y x)) [
  | inl b ↦ rw b (q, insert_end-All P x ys p a)
  | inr b ↦ rw b (p, (q, a))
]

insert_end-Ascending : (x : ℕ) (ys : List ℕ) → Ascending ys → Ascending (insert_end x ys)
unfolding insert_end
insert_end-Ascending x [] a = (tt, tt)
insert_end-Ascending x (y ∷ ys) (p, a) = elim (Bool-cases (ltb y x)) [
  | inl b ↦ rw b (insert_end-All (λ z. y ≤ z) x ys (ground arith) p, insert_end-Ascending x ys a)
  | inr b ↦ let h : x ≤ y = ground arith in rw b ((h, All-weaken x y ys h p), (p, a))
]

insert_end-AtLeast : (v x : ℕ) (ys : List ℕ) → (x ≤ v) ⊎ AtLeast v ys → AtLeast v (insert_end x ys)
unfolding insert_end
insert_end-AtLeast v x [] h = h
insert_end-AtLeast v x (y ∷ ys) h = elim (Bool-cases (ltb y x)) [
  | inl b ↦ rw b (elim h [
    | inl p ↦ inr (insert_end-AtLeast v x ys (inl p))
    | inr (inl q) ↦ inl q
    | inr (inr r) ↦ inr (insert_end-AtLeast v x ys (inr r))
  ])
  | inr b ↦ rw b h
]

insert_end-AtMost : (v x : ℕ) (ys : List ℕ) → (v ≤ x) ⊎ AtMost v ys → AtMost v (insert_end x ys)
unfolding insert_end
insert_end-AtMost v x [] h = h
insert_end-AtMost v x (y ∷ ys) h = elim (Bool-cases (ltb y x)) [
  | inl b ↦ rw b (elim h [
    | inl p ↦ inr (insert_end-AtMost v x ys (inl p))
    | inr (inl q) ↦ inl q
    | inr (inr r) ↦ inr (insert_end-AtMost v x ys (inr r))
  ])
  | inr b ↦ rw b h
]

sorted-Ascending : (xs : List ℕ) → Ascending (sorted xs)
unfolding sorted
sorted-Ascending [] = tt
sorted-Ascending (x ∷ xs) = insert_end-Ascending x (sorted xs) (sorted-Ascending xs)

sorted-AtLeast : (v : ℕ) (xs : List ℕ) → AtLeast v xs → AtLeast v (sorted xs)
unfolding sorted
sorted-AtLeast v [] h = h
sorted-AtLeast v (x ∷ xs) (inl p) = insert_end-AtLeast v x (sorted xs) (inl p)
sorted-AtLeast v (x ∷ xs) (inr q) = insert_end-AtLeast v x (sorted xs) (inr (sorted-AtLeast v xs q))

sorted-AtMost : (v : ℕ) (xs : List ℕ) → AtMost v xs → AtMost v (sorted xs)
unfolding sorted
sorted-AtMost v [] h = h
sorted-AtMost v (x ∷ xs) (inl p) = insert_end-AtMost v x (sorted xs) (inl p)
sorted-AtMost v (x ∷ xs) (inr q) = insert_end-AtMost v x (sorted xs) (inr (sorted-AtMost v xs q))

first_least : (v x : ℕ) (ys : List ℕ) → All (λ z. x ≤ z) ys → AtLeast v (x ∷ ys) → x ≤ v
first_least v x [] a (inl p) = p
first_least v x [] a (inr q) = elim q [ ]
first_least v x (y ∷ ys) a (inl p) = p
first_least v x (y ∷ ys) (p, a) (inr (inl q)) = omega arith
first_least v x (y ∷ ys) (p, a) (inr (inr q)) = first_least v x ys a (inr q)

last_most : (v x : ℕ) (ys : List ℕ) → Ascending (x ∷ ys) → AtMost v (x ∷ ys) → v ≤ last x ys
last_most v x [] a (inl p) = p
last_most v x [] a (inr q) = elim q [ ]
last_most v x (y ∷ ys) ((h, a), b) (inl p) = last_most v y ys b (inl (omega arith))
last_most v x (y ∷ ys) (a, b) (inr q) = last_most v y ys b q

abbrev pub InRange : Option Range → ℕ → Type 0
InRange none x = ⊥
InRange (some (l, r)) x = (l ≤ x) × (x ≤ r)

abbrev pub InSome : List (Option Range) → ℕ → Type 0
InSome [] x = ⊥
InSome (range ∷ ranges) x = InRange range x ⊎ InSome ranges x

ends-AtLeast : (ranges : List (Option Range)) (x : ℕ) → InSome ranges x → AtLeast x (ends ranges)
ends-AtLeast [] x h = elim h [ ]
ends-AtLeast (none ∷ ranges) x (inl h) = elim h [ ]
ends-AtLeast (none ∷ ranges) x (inr h) = ends-AtLeast ranges x h
ends-AtLeast (some (l, r) ∷ ranges) x (inl (p, q)) = inl p
ends-AtLeast (some (l, r) ∷ ranges) x (inr h) = inr (inr (ends-AtLeast ranges x h))

ends-AtMost : (ranges : List (Option Range)) (x : ℕ) → InSome ranges x → AtMost x (ends ranges)
ends-AtMost [] x h = elim h [ ]
ends-AtMost (none ∷ ranges) x (inl h) = elim h [ ]
ends-AtMost (none ∷ ranges) x (inr h) = ends-AtMost ranges x h
ends-AtMost (some (l, r) ∷ ranges) x (inl (p, q)) = inr (inl q)
ends-AtMost (some (l, r) ∷ ranges) x (inr h) = inr (inr (ends-AtMost ranges x h))

first_and_last-InRange :
    (x : ℕ) (ys : List ℕ)
    → Ascending ys
    → AtLeast x ys
    → AtMost x ys
    → InRange (first_and_last ys) x
first_and_last-InRange x [] a p q = p
first_and_last-InRange x (y ∷ ys) (h, a) p q = (first_least x y ys h p, last_most x y ys (h, a) q)

pub find_range-InRange :
    (ranges : List (Option Range)) (x : ℕ) → InSome ranges x → InRange (find_range ranges) x
unfolding find_range
find_range-InRange ranges x h =
    first_and_last-InRange x (sorted (ends ranges)) (sorted-Ascending (ends ranges))
      (sorted-AtLeast x (ends ranges) (ends-AtLeast ranges x h))
      (sorted-AtMost x (ends ranges) (ends-AtMost ranges x h))

pub widen-InRange :
    (index x : ℕ) (range : Option Range) → InRange range x → InRange (some (widen index range)) x
widen-InRange index x none h = elim h [ ]
widen-InRange index x (some (l, r)) (p, q) = (ground arith, ground arith)

pub widen-index : (index : ℕ) (range : Option Range) → InRange (some (widen index range)) index
widen-index index none = (omega arith, omega arith)
widen-index index (some (l, r)) = (ground arith, ground arith)
