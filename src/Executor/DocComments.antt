-- ===== src/Executor/DocComments.antt =====
-- `extract_script_doc_comments` of executor/src/session.rs: the comments on the lines right above a
-- script. `none` is the panic on a position outside the file.
use mathlib.Core.List.{reverse, reverse-cons}
use move_language_server.Base.{
  ℕ, refl, zero, suc, ◌+◌, ◌==◌, ◌≤◌, ◌≡◌, ap, arith, ◌&&◌, ◌||◌, leb, Bool, true, false, List, [],
  ◌∷◌, Option, some, ◌>>=◌, >>=-eq-some, if◌then◌else◌, length, length-append,
}
use move_language_server.Base.Text.{Bytes}
use move_language_server.Compiler.Location.{File, new_file, position}

-- `char::is_whitespace` on ASCII.
abbrev pub is_whitespace : ℕ → Bool
is_whitespace c = c == 32 || (leb 9 c && leb c 13)

unfoldable pub trim_start : Bytes → Bytes
trim_start [] = []
trim_start (c ∷ s) = let rest = trim_start s in if is_whitespace c then rest else c ∷ s

-- s.trim()
unfoldable pub trim : Bytes → Bytes
unfolding trim_start
trim s = reverse (trim_start (reverse (trim_start s)))

-- The body of the loop, by whether the comment starts on the candidate line: `continue` is the rest
-- of the loop for a candidate line.
unfoldable pub take_doc : (ℕ → Option (List Bytes)) → ℕ → Bytes → Bool → Option (List Bytes)
take_doc continue candidate comment false = continue candidate
take_doc continue zero comment true = some (trim comment ∷ [])
take_doc continue (suc line) comment true = do docs ← continue line; some (trim comment ∷ docs)

-- The loop over the comments, from the last to the first: start of the span and text of each.
-- The candidate line is the one above the comment that was found last.
unfoldable pub collect_docs : File → ℕ → List (ℕ × Bytes) → Option (List Bytes)
unfolding take_doc
collect_docs f candidate [] = some []
collect_docs f candidate ((start, comment) ∷ comments) = position f start >>= λ (found : ℕ × ℕ).
    take_doc (λ line. collect_docs f line comments) candidate comment (found.0 == candidate)

unfoldable pub docs_above : File → ℕ → List (ℕ × Bytes) → Option (List Bytes)
unfolding collect_docs
docs_above f zero comments = some []
docs_above f (suc line) comments = do
  docs ← collect_docs f line (reverse comments)
  some (reverse docs)

unfoldable pub extract_script_doc_comments :
    (Bytes → List ℕ) → ℕ → Bytes → List (ℕ × Bytes) → Option (List Bytes)
unfolding docs_above
extract_script_doc_comments line_starts script_start file_content file_comments = do
  let file = new_file line_starts file_content
  (script_start_line, column) ← position file script_start
  docs_above file script_start_line file_comments

length-reverse : (xs : List Bytes) → length (reverse xs) ≡ length xs
length-reverse [] = refl
length-reverse (x ∷ xs) =
    omega
      (arith, length-append (reverse xs) (x ∷ []), length-reverse xs, ap length (reverse-cons x xs))

docs_eq : (a b : List Bytes) → some a ≡ some b → a ≡ b
docs_eq a b h = cc

take_doc-length :
    (continue : ℕ → Option (List Bytes))
    → ((line : ℕ) (docs : List Bytes) → continue line ≡ some docs → length docs ≤ line + 1)
    → (line : ℕ) (comment : Bytes) (b : Bool) (docs : List Bytes)
    → take_doc continue line comment b ≡ some docs
    → length docs ≤ line + 1
unfolding take_doc
take_doc-length continue bound line comment false docs h = bound line docs h
take_doc-length continue bound zero comment true docs h = omega (arith, ap length (docs_eq _ _ h))
take_doc-length continue bound (suc line) comment true docs h =
    let (rest, others, made) = >>=-eq-some (continue line) _ h in
    omega (arith, bound line rest others, ap length (docs_eq _ _ made))

-- At most one comment for each line up to the candidate.
collect_docs-length :
    (f : File) (candidate : ℕ) (comments : List (ℕ × Bytes)) (docs : List Bytes)
    → collect_docs f candidate comments ≡ some docs
    → length docs ≤ candidate + 1
unfolding collect_docs
collect_docs-length f candidate [] docs h = omega (arith, ap length (docs_eq _ _ h))
collect_docs-length f candidate ((start, comment) ∷ comments) docs h =
    let (found, at, more) = >>=-eq-some (position f start) _ h in
    take_doc-length (λ line. collect_docs f line comments)
      (λ line docs h. collect_docs-length f line comments docs h) candidate comment
      (found.0 == candidate) docs more

docs_above-length :
    (f : File) (line : ℕ) (comments : List (ℕ × Bytes)) (docs : List Bytes)
    → docs_above f line comments ≡ some docs
    → length docs ≤ line
unfolding docs_above
docs_above-length f zero comments docs h = omega (arith, ap length (docs_eq _ _ h))
docs_above-length f (suc line) comments docs h =
    let (found, collected, made) = >>=-eq-some (collect_docs f line (reverse comments)) _ h in
    omega (
      arith,
      collect_docs-length f line (reverse comments) found collected,
      ap length (docs_eq _ _ made),
      length-reverse found,
    )

-- A script has no more doc comments than there are lines above it in its file.
extract_script_doc_comments-length :
    (line_starts : Bytes → List ℕ) (script_start : ℕ) (content : Bytes)
    (comments : List (ℕ × Bytes)) (docs : List Bytes)
    → extract_script_doc_comments line_starts script_start content comments ≡ some docs
    → (line : ℕ) × (column : ℕ) × (position (new_file line_starts content) script_start
        ≡ some (line, column))
      × (length docs ≤ line)
unfolding extract_script_doc_comments
extract_script_doc_comments-length line_starts script_start content comments docs h =
    let (found, at, more) =
      >>=-eq-some {A = ℕ × ℕ} (position (new_file line_starts content) script_start) _ h in
    (found.0, found.1, at, docs_above-length _ found.0 comments docs more)
