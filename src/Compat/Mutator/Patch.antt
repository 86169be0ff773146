-- ===== src/Compat/Mutator/Patch.antt =====
-- Making all replacements in place against one pass over the source bytes.
use move_language_server.Base.{
  ℕ, suc, ◌+◌, ◌-◌, ◌≤◌, ◌<◌, ◌^◌, ◌≡◌, refl, sym, ap, ◌∙◌, arith, List, [], ◌∷◌, ◌++◌, Option,
  some, ◌>>=◌, length, take, drop, length-append, length-take, length-drop, append_assoc,
  take-append-drop,
}
use native.Mathlib.Decide.{dec_lt}
use move_language_server.Base.Int.{ℤ, pos, negsuc, pos_part, neg_part, sub_ℕ, ◌+ℤ◌, as_usize}
use move_language_server.Base.Text.{Bytes}
use move_language_server.Compat.Mutator.{
  Diff, offset_diff, shifted, insert_loop, remove_loop, write_slice, replace,
}
use move_language_server.Compat.Mutator.Slices.{insert_loop_at, remove_loop_at, write_slice_at}

-- The bytes of `orig` from `at` on, with the ranges of the diffs replaced.
unfoldable pub patched : Bytes → ℕ → List Diff → Bytes
patched orig at [] = drop at orig
patched orig at (d ∷ ds) = take (d.start - at) (drop at orig) ++ (d.value ++ patched orig d.end ds)

-- Ranges in order, apart, and inside a buffer of `n` bytes or wholly behind it.
abbrev pub Apart : ℕ → ℕ → List Diff → Type 0
Apart n at [] = Unit
Apart n at (d ∷ ds) =
    (at ≤ d.start)
    × (d.start ≤ d.end)
    × (d.end < 2 ^ 63)
    × (d.start < n → d.end ≤ n)
    × Apart n d.end ds

-- The offset is the length of what is written less the length of what is read.
abbrev pub IsOffset : ℤ → ℕ → ℕ → Type 0
IsOffset offset written read = pos_part offset + read ≡ neg_part offset + written

pub shifted_lem :
    (offset : ℤ) (written read p : ℕ)
    → IsOffset offset written read
    → read ≤ p
    → written + (p - read) < 2 ^ 64
    → shifted p offset ≡ written + (p - read)
unfolding as_usize ◌+ℤ◌
shifted_lem offset written read p e h small = ground arith

pub IsOffset-add :
    (d : Diff) (offset : ℤ) (written read : ℕ)
    → IsOffset offset written read
    → read ≤ d.start
    → d.start ≤ d.end
    → IsOffset (offset +ℤ offset_diff d) (written + (d.start - read) + length d.value) d.end
unfolding offset_diff ◌+ℤ◌
IsOffset-add d offset written read e h k = ground arith

-- The sign of a difference.
data SubCases (a b : ℕ) : Type 0 where
  same : sub_ℕ a b ≡ pos 0 → a ≡ b → SubCases a b
  longer : (k : ℕ) → sub_ℕ a b ≡ pos (suc k) → a ≡ suc k + b → SubCases a b
  shorter : (k : ℕ) → sub_ℕ a b ≡ negsuc k → b ≡ a + suc k → SubCases a b

sub_cases : (a b : ℕ) → SubCases a b
sub_cases a b = elim (dec_lt a b) [
  | yes p ↦ shorter (b - a - 1) (ground arith) (omega arith)
  | no p ↦ elim (dec_lt b a) [
    | yes q ↦ longer (a - b - 1) (ground arith) (omega arith)
    | no q ↦ same (ground arith) (omega arith)
  ]
]

two_steps :
    (m : Option Bytes) (f : Bytes → Option Bytes) {b r : Bytes}
    → m ≡ some b
    → f b ≡ some r
    → (m >>= f) ≡ some r
two_steps m f e h = rw e h

-- One replacement in a buffer that is given in pieces: the three arms of the `match`.
module _ (d : Diff) (offset : ℤ) (pre mid t : Bytes) (at : shifted d.start offset ≡ length pre)
    (to : shifted d.end offset ≡ length pre + length mid) where
  replace_same :
      length d.value ≡ length mid
      → replace d offset (pos 0) (pre ++ (mid ++ t)) ≡ some (pre ++ (d.value ++ t))
  unfolding replace
  replace_same e = write_slice_at pre mid d.value t _ _ (sym at) (omega arith) e

  replace_longer :
      (k : ℕ)
      → length d.value ≡ suc k + length mid
      → replace d offset (pos (suc k)) (pre ++ (mid ++ t)) ≡ some (pre ++ (d.value ++ t))
  replace_longer k e =
      let front = take (suc k) d.value in
      let back = drop (suc k) d.value in
      let whole : front ++ back ≡ d.value = take-append-drop (suc k) d.value in
      let inserted =
        insert_loop_at front [] back pre (mid ++ t) (suc k) 0 (shifted d.start offset)
          (omega (arith, length-take (suc k) d.value)) refl (omega arith) in
      let written =
        write_slice_at (pre ++ front) mid back t (shifted d.start offset + suc k)
          (shifted d.end offset + suc k)
          (omega (arith, length-append pre front, length-take (suc k) d.value)) (omega arith)
          (omega (arith, length-drop (suc k) d.value)) in
      unfold replace in
      two_steps (insert_loop (suc k) 0 (shifted d.start offset) d.value (pre ++ (mid ++ t)))
        (λ b. write_slice b (shifted d.start offset + suc k) (shifted d.end offset + suc k) back)
        (rw whole at inserted)
        (rw
          (
            append_assoc pre front (mid ++ t),
            append_assoc pre front (back ++ t),
            ← append_assoc front back t,
            whole,
          )
          at written)

  replace_shorter :
      (k : ℕ)
      → length mid ≡ length d.value + suc k
      → replace d offset (negsuc k) (pre ++ (mid ++ t)) ≡ some (pre ++ (d.value ++ t))
  replace_shorter k e =
      let cut = take (suc k) mid in
      let left = drop (suc k) mid in
      let removed =
        remove_loop_at cut pre (left ++ t) (suc k) (shifted d.start offset)
          (omega (arith, length-take (suc k) mid)) (sym at) in
      let written =
        write_slice_at pre left d.value t (shifted d.start offset)
          (shifted d.start offset + length d.value) (sym at)
          (omega (arith, length-drop (suc k) mid)) (omega (arith, length-drop (suc k) mid)) in
      let split : cut ++ (left ++ t) ≡ mid ++ t =
        sym (append_assoc cut left t) ∙ ap (λ x. x ++ t) (take-append-drop (suc k) mid) in
      unfold replace in
      two_steps (remove_loop (suc k) (shifted d.start offset) (pre ++ (mid ++ t)))
        (λ b.
          write_slice b (shifted d.start offset) (shifted d.start offset + length d.value) d.value)
        (rw split at removed) written

  pub replace_lem :
      length mid ≡ d.end - d.start
      → replace d offset (offset_diff d) (pre ++ (mid ++ t)) ≡ some (pre ++ (d.value ++ t))
  unfolding offset_diff
  replace_lem e = three (sub_cases (length d.value) (d.end - d.start))
    where
      three :
          SubCases (length d.value) (d.end - d.start)
          → replace d offset (sub_ℕ (length d.value) (d.end - d.start)) (pre ++ (mid ++ t))
            ≡ some (pre ++ (d.value ++ t))
      three (same h l) = rw h (replace_same (omega arith))
      three (longer k h l) = rw h (replace_longer k (omega arith))
      three (shorter k h l) = rw h (replace_shorter k (omega arith))
