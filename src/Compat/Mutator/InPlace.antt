-- ===== src/Compat/Mutator/InPlace.antt =====
-- The loop over the sorted replacements against the one pass of `patched`.
use move_language_server.Base.{
  ℕ, zero, suc, ◌+◌, ◌-◌, ◌≤◌, ◌<◌, ◌^◌, ◌≡◌, refl, sym, ap, ◌∙◌, arith, false, List, [], ◌∷◌, ◌++◌,
  some, leb, length, take, drop, length-append, length-take, length-drop, append_assoc, append-nil,
  take-append-drop,
}
use native.Mathlib.Decide.{dec_lt}
use move_language_server.Base.Int.{ℤ, pos, ◌+ℤ◌}
use move_language_server.Base.Text.{Bytes}
use move_language_server.Compat.Mutator.{
  Diff, Mutator, offset_diff, shifted, replace, mutate_loop, mutate, sort_by_start, insert_sorted,
}
use move_language_server.Compat.Mutator.Slices.{le→leb}
use move_language_server.Compat.Mutator.Patch.{
  patched, Apart, IsOffset, shifted_lem, IsOffset-add, replace_lem,
}

drop_beyond : (n : ℕ) (xs : Bytes) → length xs ≤ n → drop n xs ≡ []
drop_beyond zero [] h = refl
drop_beyond zero (x ∷ xs) h = elim h [ ]
drop_beyond (suc n) [] h = refl
drop_beyond (suc n) (x ∷ xs) h = drop_beyond n xs (omega arith)

take_beyond : (n : ℕ) (xs : Bytes) → length xs ≤ n → take n xs ≡ xs
take_beyond zero [] h = refl
take_beyond zero (x ∷ xs) h = elim h [ ]
take_beyond (suc n) [] h = refl
take_beyond (suc n) (x ∷ xs) h = ap (λ t. x ∷ t) (take_beyond n xs (omega arith))

pub drop-drop : (a b c : ℕ) (xs : Bytes) → a + b ≡ c → drop b (drop a xs) ≡ drop c xs
drop-drop zero b c xs e = ap (λ k. drop k xs) (omega arith)
drop-drop (suc a) b zero xs e = absurd (omega arith)
drop-drop (suc a) zero (suc c) [] e = refl
drop-drop (suc a) (suc b) (suc c) [] e = refl
drop-drop (suc a) b (suc c) (x ∷ xs) e = drop-drop a b c xs (omega arith)

-- A range of a list, cut out.
three_parts :
    (orig : Bytes) (at start end : ℕ)
    → at ≤ start
    → start ≤ end
    → drop at orig
      ≡ take (start - at) (drop at orig) ++ (take (end - start) (drop start orig) ++ drop end orig)
three_parts orig at start end h k =
    sym (take-append-drop (start - at) (drop at orig))
    ∙ ap (λ x. take (start - at) (drop at orig) ++ x)
        (drop-drop at (start - at) start orig (omega arith)
          ∙ sym (take-append-drop (end - start) (drop start orig))
          ∙ ap (λ x. take (end - start) (drop start orig) ++ x)
              (drop-drop start (end - start) end orig (omega arith)))

-- Behind the source, values are appended.
appended_lem :
    (ds : List Diff) (orig b : Bytes) (at : ℕ) (offset : ℤ)
    → length orig ≤ at
    → Apart (length orig) at ds
    → mutate_loop (length orig) ds offset b ≡ some (b ++ patched orig at ds)
unfolding mutate_loop patched
appended_lem [] orig b at offset far h = rw (drop_beyond at orig far) (ap some (sym (append-nil b)))
appended_lem (d ∷ ds) orig b at offset far (h1, h2, h3, h4, rest) =
    rw (le→leb (length orig) d.start (omega arith)) (
      appended_lem ds orig (b ++ d.value) d.end offset (omega arith) rest
      ∙ rw (drop_beyond at orig far, take_beyond (d.start - at) [] (omega arith))
          (ap some (append_assoc b d.value (patched orig d.end ds))))

abbrev pub total : List Diff → ℕ
total [] = 0
total (d ∷ ds) = length d.value + total ds

le→leb_false : (a b : ℕ) → b < a → leb a b ≡ false
le→leb_false a b h = ground arith

module _ (n : ℕ) (d : Diff) (ds : List Diff) (offset : ℤ) (b : Bytes) where
  append_step :
      n ≤ d.start → mutate_loop n (d ∷ ds) offset b ≡ mutate_loop n ds offset (b ++ d.value)
  unfolding mutate_loop
  append_step h = rw (le→leb n d.start h)

  replace_step :
      (b' : Bytes)
      → d.start < n
      → replace d offset (offset_diff d) b ≡ some b'
      → mutate_loop n (d ∷ ds) offset b ≡ mutate_loop n ds (offset +ℤ offset_diff d) b'
  unfolding mutate_loop
  replace_step b' h e = rw (le→leb_false n d.start h, e)

loop_lem :
    (ds : List Diff) (orig done : Bytes) (at : ℕ) (offset : ℤ)
    → Apart (length orig) at ds
    → at ≤ length orig
    → IsOffset offset (length done) at
    → length done + total ds + (length orig - at) < 2 ^ 63
    → mutate_loop (length orig) ds offset (done ++ drop at orig) ≡ some (done ++ patched orig at ds)
loop_lem [] orig done at offset h inside e small = unfold mutate_loop patched in refl
loop_lem (d ∷ ds) orig done at offset (h1, h2, h3, h4, rest) inside e small =
    elim (dec_lt d.start (length orig)) [
      | yes p ↦
          let end_in = h4 p in
          let front = take (d.start - at) (drop at orig) in
          let mid = take (d.end - d.start) (drop d.start orig) in
          let front_len : length front ≡ d.start - at =
            omega (arith, length-take (d.start - at) (drop at orig), length-drop at orig) in
          let mid_len : length mid ≡ d.end - d.start =
            omega (
              arith,
              length-take (d.end - d.start) (drop d.start orig),
              length-drop d.start orig,
            ) in
          let pre = done ++ front in
          let pre_len : length pre ≡ length done + (d.start - at) =
            omega (arith, length-append done front) in
          let start_at : shifted d.start offset ≡ length pre =
            shifted_lem offset (length done) at d.start e h1 (omega arith) ∙ sym pre_len in
          let end_at : shifted d.end offset ≡ length pre + length mid =
            shifted_lem offset (length done) at d.end e (omega arith) (omega arith) ∙ omega arith in
          let done_len : length (pre ++ d.value) ≡ length done + (d.start - at) + length d.value =
            omega (arith, length-append pre d.value) in
          let next_offset : IsOffset (offset +ℤ offset_diff d) (length (pre ++ d.value)) d.end =
            rw done_len (IsOffset-add d offset (length done) at e h1 h2) in
          ap (λ x. mutate_loop (length orig) (d ∷ ds) offset (done ++ x))
            (three_parts orig at d.start d.end h1 h2)
          ∙ ap (mutate_loop (length orig) (d ∷ ds) offset)
              (sym (append_assoc done front (mid ++ drop d.end orig)))
          ∙ replace_step (length orig) d ds offset _ (pre ++ (d.value ++ drop d.end orig)) p
              (replace_lem d offset pre mid (drop d.end orig) start_at end_at mid_len)
          ∙ ap (mutate_loop (length orig) ds (offset +ℤ offset_diff d))
              (sym (append_assoc pre d.value (drop d.end orig)))
          ∙ loop_lem ds orig (pre ++ d.value) d.end (offset +ℤ offset_diff d) rest end_in
              next_offset (omega arith)
          ∙ ap some (
              append_assoc pre d.value (patched orig d.end ds)
              ∙ append_assoc done front (d.value ++ patched orig d.end ds)
              ∙ ap (λ x. done ++ x) (unfold patched in refl))
      | no p ↦
          append_step (length orig) d ds offset (done ++ drop at orig) (omega arith)
          ∙ appended_lem ds orig ((done ++ drop at orig) ++ d.value) d.end offset (omega arith) rest
          ∙ unfold patched in
            rw (take_beyond (d.start - at) (drop at orig) (omega (arith, length-drop at orig))) (
              ap some (
                append_assoc (done ++ drop at orig) d.value (patched orig d.end ds)
                ∙ append_assoc done (drop at orig) (d.value ++ patched orig d.end ds)))
    ]

total-insert_sorted :
    (d : Diff) (ds : List Diff) → total (insert_sorted d ds) ≡ length d.value + total ds
unfolding insert_sorted
total-insert_sorted d [] = refl
total-insert_sorted d (x ∷ xs) = ground (arith, total-insert_sorted d xs)

total-sort_by_start : (m : Mutator) → total (sort_by_start m) ≡ total m
unfolding sort_by_start
total-sort_by_start [] = refl
total-sort_by_start (d ∷ ds) =
    omega (arith, total-insert_sorted d (sort_by_start ds), total-sort_by_start ds)

pub sort_of_Apart : (n at : ℕ) (ds : List Diff) → Apart n at ds → sort_by_start ds ≡ ds
unfolding sort_by_start
sort_of_Apart n at [] h = refl
sort_of_Apart n at (d ∷ []) h = refl
sort_of_Apart n at (d ∷ x ∷ ds) (h1, h2, h3, h4, rest) =
    rw (sort_of_Apart n d.end (x ∷ ds) rest) (rw (le→leb d.start x.start (omega arith)) refl)

-- If the ranges, in the order of their starts, do not overlap and each lies inside the buffer or
-- wholly behind it, the replacements made in place return the buffer with exactly those ranges
-- replaced, and no slice operation panics. All sizes together stay below 2^63.
pub mutate-patched :
    (m : Mutator) (buffer : Bytes)
    → Apart (length buffer) 0 (sort_by_start m)
    → total m + length buffer < 2 ^ 63
    → mutate m buffer ≡ some (patched buffer 0 (sort_by_start m))
unfolding mutate
mutate-patched m buffer h small =
    loop_lem (sort_by_start m) buffer [] 0 (pos 0) h (omega arith) (omega arith)
      (omega (arith, total-sort_by_start m))
