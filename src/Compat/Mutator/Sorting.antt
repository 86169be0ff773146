-- ===== src/Compat/Mutator/Sorting.antt =====
-- `sort_by_start` is a sort.
use mathlib.Core.List.{Perm}
use mathlib.Core.List.Perm
use move_language_server.Base.{ℕ, ◌≤◌, arith, List, [], ◌∷◌, leb, Bool-cases, inl, inr, All}
use move_language_server.Compat.Mutator.{Diff, Mutator, insert_sorted, sort_by_start}

abbrev pub IsSorted : List Diff → Type 0
IsSorted [] = Unit
IsSorted (d ∷ ds) = All (λ x. d.start ≤ x.start) ds × IsSorted ds

-- The first diffs of a list whose start is `s`.
insert-Perm : (d : Diff) (ds : List Diff) → Perm (insert_sorted d ds) (d ∷ ds)
unfolding insert_sorted
insert-Perm d [] = Perm.refl (d ∷ [])
insert-Perm d (x ∷ xs) = elim (Bool-cases (leb d.start x.start)) [
  | inl y ↦ rw y (Perm.refl (d ∷ x ∷ xs))
  | inr n ↦ rw n (Perm.trans (Perm.cons x (insert-Perm d xs)) (Perm.swap d x xs))
]

All-le : (a b : ℕ) (ds : List Diff) → a ≤ b → All (λ x. b ≤ x.start) ds → All (λ x. a ≤ x.start) ds
All-le a b [] h all = tt
All-le a b (x ∷ ds) h (at, all) = (omega arith, All-le a b ds h all)

All-insert :
    (a : ℕ) (d : Diff) (ds : List Diff)
    → a ≤ d.start
    → All (λ x. a ≤ x.start) ds
    → All (λ x. a ≤ x.start) (insert_sorted d ds)
unfolding insert_sorted
All-insert a d [] h all = (h, tt)
All-insert a d (x ∷ ds) h (at, all) = elim (Bool-cases (leb d.start x.start)) [
  | inl y ↦ rw y (h, (at, all))
  | inr n ↦ rw n (at, All-insert a d ds h all)
]

insert-IsSorted : (d : Diff) (ds : List Diff) → IsSorted ds → IsSorted (insert_sorted d ds)
unfolding insert_sorted
insert-IsSorted d [] h = (tt, tt)
insert-IsSorted d (x ∷ ds) (first, rest) = elim (Bool-cases (leb d.start x.start)) [
  | inl y ↦
      let le : d.start ≤ x.start = ground arith in
      rw y ((le, All-le d.start x.start ds le first), (first, rest))
  | inr n ↦ rw n (All-insert x.start d ds (ground arith) first, insert-IsSorted d ds rest)
]

-- The sort of the mutations returns their starts in order, and the same mutations as often.
sort-IsSorted : (m : Mutator) → IsSorted (sort_by_start m) × Perm (sort_by_start m) m
unfolding sort_by_start
sort-IsSorted [] = (tt, Perm.refl [])
sort-IsSorted (d ∷ ds) =
    let (sorted, same) = sort-IsSorted ds in
    (
      insert-IsSorted d (sort_by_start ds) sorted,
      Perm.trans (insert-Perm d (sort_by_start ds)) (Perm.cons d same),
    )
