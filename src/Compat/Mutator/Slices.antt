-- ===== src/Compat/Mutator/Slices.antt =====
-- The vector loops of the mutator on a buffer that is given in pieces.
use move_language_server.Base.{
  ℕ, zero, suc, ◌+◌, ◌-◌, ◌≤◌, ◌==◌, ◌≡◌, refl, sym, ap, ◌∙◌, arith, true, [], ◌∷◌, ◌++◌, some, leb,
  length, take, drop, get_elem?, length-append, take_all, drop_all, append_assoc, lt→ltb,
  get_elem?-append_right,
}
use move_language_server.Base.Text.{Bytes}
use move_language_server.Compat.Mutator.{
  vec_insert, vec_remove, write_slice, insert_loop, remove_loop,
}

take_at : (pre t : Bytes) (i : ℕ) → length pre ≡ i → take i (pre ++ t) ≡ pre
take_at pre t i e = rw (← e) (take_all pre t)

drop_at : (pre t : Bytes) (i : ℕ) → length pre ≡ i → drop i (pre ++ t) ≡ t
drop_at pre t i e = rw (← e) (drop_all pre t)

pub le→leb : (a b : ℕ) → a ≤ b → leb a b ≡ true
le→leb a b h = ground arith

eq→== : (a b : ℕ) → a ≡ b → (a == b) ≡ true
eq→== a b h = ground arith

pub vec_insert_at :
    (pre t : Bytes) (i v : ℕ) → length pre ≡ i → vec_insert (pre ++ t) i v ≡ some (pre ++ (v ∷ t))
unfolding vec_insert
vec_insert_at pre t i v e =
    rw
      (
        le→leb i (length (pre ++ t)) (omega (arith, length-append pre t)),
        take_at pre t i e,
        drop_at pre t i e,
      )
      refl

pub vec_remove_at :
    (pre t : Bytes) (i v : ℕ) → length pre ≡ i → vec_remove (pre ++ (v ∷ t)) i ≡ some (pre ++ t)
unfolding vec_remove
vec_remove_at pre t i v e =
    rw
      (
        lt→ltb i (length (pre ++ (v ∷ t))) (omega (arith, length-append pre (v ∷ t))),
        take_at pre (v ∷ t) i e,
      )
      (ap (λ x. some (pre ++ x))
        (ap (drop (i + 1)) (sym (append_assoc pre (v ∷ []) t))
          ∙ drop_at (pre ++ v ∷ []) t (i + 1) (omega (arith, length-append pre (v ∷ [])))))

pub write_slice_at :
    (pre mid src t : Bytes) (lo hi : ℕ)
    → length pre ≡ lo
    → lo + length mid ≡ hi
    → length src ≡ length mid
    → write_slice (pre ++ (mid ++ t)) lo hi src ≡ some (pre ++ (src ++ t))
unfolding write_slice
write_slice_at pre mid src t lo hi e f g =
    rw
      (
        le→leb lo hi (omega arith),
        le→leb hi (length (pre ++ (mid ++ t)))
            (omega (arith, length-append pre (mid ++ t), length-append mid t)),
        eq→== (length src) (hi - lo) (omega arith),
        take_at pre (mid ++ t) lo e,
      )
      (ap (λ x. some (pre ++ (src ++ x)))
        (ap (drop hi) (sym (append_assoc pre mid t))
          ∙ drop_at (pre ++ mid) t hi (omega (arith, length-append pre mid))))

pub insert_loop_at :
    (vs done rest pre t : Bytes) (n src start : ℕ)
    → length vs ≡ n
    → length done ≡ src
    → length pre ≡ start + src
    → insert_loop n src start (done ++ (vs ++ rest)) (pre ++ t) ≡ some (pre ++ (vs ++ t))
unfolding insert_loop
insert_loop_at [] done rest pre t zero src start e f g = refl
insert_loop_at [] done rest pre t (suc n) src start e f g = absurd (omega arith)
insert_loop_at (v ∷ vs) done rest pre t zero src start e f g = absurd (omega arith)
insert_loop_at (v ∷ vs) done rest pre t (suc n) src start e f g =
    let found : get_elem? (done ++ (v ∷ (vs ++ rest))) src ≡ some v =
      get_elem?-append_right done (v ∷ (vs ++ rest)) src 0 (omega arith) in
    let ih =
      insert_loop_at vs (done ++ v ∷ []) rest (pre ++ v ∷ []) t n (src + 1) start (omega arith)
        (omega (arith, length-append done (v ∷ []))) (omega (arith, length-append pre (v ∷ []))) in
    rw (found, vec_insert_at pre t (start + src) v g)
      (rw
        (
          append_assoc done (v ∷ []) (vs ++ rest),
          append_assoc pre (v ∷ []) t,
          append_assoc pre (v ∷ []) (vs ++ t),
        )
        at ih)

pub remove_loop_at :
    (cut pre t : Bytes) (n start : ℕ)
    → length cut ≡ n
    → length pre ≡ start
    → remove_loop n start (pre ++ (cut ++ t)) ≡ some (pre ++ t)
unfolding remove_loop
remove_loop_at [] pre t zero start e f = refl
remove_loop_at [] pre t (suc n) start e f = absurd (omega arith)
remove_loop_at (v ∷ cut) pre t zero start e f = absurd (omega arith)
remove_loop_at (v ∷ cut) pre t (suc n) start e f =
    rw (vec_remove_at pre (cut ++ t) start v f) (remove_loop_at cut pre t n start (omega arith) f)
