-- ===== src/Transaction/Lookup/Laws.antt =====
-- Which script a lookup finds.
use move_language_server.Base.{
  ◌≡◌, refl, sym, ap, ◌∙◌, true, false, List, [], ◌∷◌, ◌++◌, none, some, All, Bool-cases,
  Option-cases, inl, inr, ◌⊎◌,
}
use move_language_server.Base.Classes.{eqb}
use move_language_server.Base.Text.{Bytes}
use move_language_server.Executor.Tags.{bytes_eq}
use move_language_server.Transaction.Outcome.{ok, >>=-eq-ok, of_option, not_loaded, of_option-eq-ok}
use move_language_server.Transaction.ScriptMeta.{Meta}
use move_language_server.Transaction.Arguments.{contains}
use move_language_server.Transaction.Lookup.{
  MoveFile, Scripts, extract, any_named, named_in, candidate, candidates, only_script, only_file,
  lookup_script_by_name,
}

module _ (scripts : Scripts) (name : Bytes) where
  open scripts use {find_move_files, load}

  -- What a file that the filters keep has.
  pub record Kept (path : Bytes) (file : MoveFile) (metas : List Meta) : Type 0 where
    pub loaded : load path ≡ some file
    pub extracted : extract scripts file ≡ some metas
    pub mentions : contains file.content name ≡ true
    pub declares : any_named scripts name metas ≡ true

  abbrev pub Any : List Meta → Type 0
  Any [] = ⊥
  Any (meta ∷ metas) = (name ≡ meta.name) ⊎ Any metas

  -- A file that can be loaded and parsed, mentions the name, and has a script of that name.
  pub record Declares (path : Bytes) : Type 0 where
    pub file : MoveFile
    pub metas : List Meta
    pub loads : load path ≡ some file
    pub parses : extract scripts file ≡ some metas
    pub mentions : contains file.content name ≡ true
    pub named : Any metas

  -- Where the filters keep one file of a list.
  pub record Only (paths : List Bytes) (file : MoveFile) (metas : List Meta) : Type 0 where
    pub before : List Bytes
    pub path : Bytes
    pub after : List Bytes
    pub place : paths ≡ before ++ path ∷ after
    pub kept : Kept path file metas
    pub none_before : All (λ p. ¬ Declares p) before
    pub none_after : All (λ p. ¬ Declares p) after

  any_named-Any : (metas : List Meta) → Any metas → any_named scripts name metas ≡ true
  unfolding any_named
  any_named-Any [] h = absurd h
  any_named-Any (meta ∷ metas) (inl e) = rw ((bytes_eq.beq_iff name meta.name).1 e) refl
  any_named-Any (meta ∷ metas) (inr h) = elim (Bool-cases (eqb name meta.name)) [
    | inl y ↦ rw y refl
    | inr n ↦ rw n (any_named-Any metas h)
  ]

  Declares-candidate :
      (path : Bytes) (d : Declares path) → candidate scripts name path ≡ some (d.file, d.metas)
  unfolding candidate named_in
  Declares-candidate path d =
      rw (d.loads, candidate, d.mentions, d.parses, any_named-Any d.metas d.named) refl

  not_Declares : (path : Bytes) → candidate scripts name path ≡ none → ¬ Declares path
  not_Declares path e d = cc (e, Declares-candidate path d)

  candidates_empty : candidates scripts name [] ≡ []
  unfolding candidates
  candidates_empty = refl

  named_in-Kept :
      (path : Bytes) (script file : MoveFile) (metas : List Meta)
      → load path ≡ some script
      → contains script.content name ≡ true
      → named_in scripts name script (extract scripts script) ≡ some (file, metas)
      → Kept path file metas
  unfolding named_in
  named_in-Kept path script file metas l c h = elim (Option-cases (extract scripts script)) [
    | inl e ↦ absurd (let h' : none ≡ some (file, metas) = rw e at h in cc h')
    | inr (found, e) ↦ elim (Bool-cases (any_named scripts name found)) [
      | inl y ↦
          let h' : some (script, found) ≡ some (file, metas) = rw (e, y) at h in
          let a : script ≡ file = cc in
          let b : found ≡ metas = cc in
          rw (← a, ← b) (record { loaded = l; extracted = e; mentions = c; declares = y })
      | inr n ↦ absurd (let h' : none ≡ some (file, metas) = rw (e, n) at h in cc h')
    ]
  ]

  candidate-Kept :
      (path : Bytes) (file : MoveFile) (metas : List Meta)
      → candidate scripts name path ≡ some (file, metas)
      → Kept path file metas
  unfolding candidate named_in
  candidate-Kept path file metas h = elim (Option-cases (load path)) [
    | inl e ↦ absurd (let h' : none ≡ some (file, metas) = rw (e, candidate) at h in cc h')
    | inr (script, e) ↦ elim (Bool-cases (contains script.content name)) [
      | inl y ↦ named_in-Kept path script file metas e y (rw (e, candidate, y) at h)
      | inr n ↦ absurd (let h' : none ≡ some (file, metas) = rw (e, candidate, n) at h in cc h')
    ]
  ]

  candidates-skip :
      (p : Bytes) (paths : List Bytes)
      → candidate scripts name p ≡ none
      → candidates scripts name (p ∷ paths) ≡ candidates scripts name paths
  unfolding candidates
  candidates-skip p paths e = rw (e, candidates) refl

  candidates-keep :
      (p : Bytes) (paths : List Bytes) (c : MoveFile × List Meta)
      → candidate scripts name p ≡ some c
      → candidates scripts name (p ∷ paths) ≡ c ∷ candidates scripts name paths
  unfolding candidates
  candidates-keep p paths c e = rw (e, candidates) refl

  candidates-none :
      (paths : List Bytes) → candidates scripts name paths ≡ [] → All (λ p. ¬ Declares p) paths
  candidates-none [] h = tt
  candidates-none (p ∷ paths) h = elim (Option-cases (candidate scripts name p)) [
    | inl e ↦ (not_Declares p e, candidates-none paths (sym (candidates-skip p paths e) ∙ h))
    | inr (c, e) ↦ absurd (cc (h, candidates-keep p paths c e))
  ]

  candidates-Only :
      (paths : List Bytes) (file : MoveFile) (metas : List Meta)
      → candidates scripts name paths ≡ (file, metas) ∷ []
      → Only paths file metas
  candidates-Only [] file metas h = absurd (cc (h, candidates_empty))
  candidates-Only (p ∷ paths) file metas h = elim (Option-cases (candidate scripts name p)) [
    | inl e ↦
        let rest = candidates-Only paths file metas (sym (candidates-skip p paths e) ∙ h) in
        record {
          before = p ∷ rest.before;
          path = rest.path;
          after = rest.after;
          place = ap (λ l. p ∷ l) rest.place;
          kept = rest.kept;
          none_before = (not_Declares p e, rest.none_before);
          none_after = rest.none_after;
        }
    | inr (c, e) ↦
        let same : c ∷ candidates scripts name paths ≡ (file, metas) ∷ [] =
          sym (candidates-keep p paths c e) ∙ h in
        let c_is : c ≡ (file, metas) = cc in
        record {
          before = [];
          path = p;
          after = paths;
          place = refl;
          kept = candidate-Kept p file metas (e ∙ ap some c_is);
          none_before = tt;
          none_after = candidates-none paths (cc same);
        }
  ]

  only_script-eq-ok :
      (script : MoveFile) (metas : List Meta) (file : MoveFile) (meta : Meta)
      → only_script scripts script metas ≡ ok (file, meta)
      → ◌≡◌ {A = List (MoveFile × List Meta)} ((script, metas) ∷ []) ((file, meta ∷ []) ∷ [])
  unfolding only_script
  only_script-eq-ok script [] file meta h = cc
  only_script-eq-ok script (m ∷ []) file meta h = cc
  only_script-eq-ok script (m ∷ m' ∷ ms) file meta h = cc

  only_file-eq-ok :
      (found : List (MoveFile × List Meta)) (file : MoveFile) (meta : Meta)
      → only_file scripts found ≡ ok (file, meta)
      → found ≡ (file, meta ∷ []) ∷ []
  unfolding only_file
  only_file-eq-ok [] file meta h = cc
  only_file-eq-ok ((script, metas) ∷ []) file meta h = only_script-eq-ok script metas file meta h
  only_file-eq-ok (c ∷ d ∷ found) file meta h = cc

  any_named-one : (meta : Meta) → any_named scripts name (meta ∷ []) ≡ true → name ≡ meta.name
  unfolding any_named
  any_named-one meta h = elim (Bool-cases (eqb name meta.name)) [
    | inl y ↦ (bytes_eq.beq_iff name meta.name).0 y
    | inr n ↦ absurd (let h' : false ≡ true = rw n at h in cc h')
  ]

  -- A script that is found by its name has that name and is the only script of its file, and no other
  -- file of the folder has a script of that name, files aside that cannot be loaded or parsed or do
  -- not mention the name in their text.
  pub lookup_script_by_name-Only :
      (file : MoveFile) (meta : Meta)
      → lookup_script_by_name scripts name ≡ ok (file, meta)
      → (name ≡ meta.name)
        × ((paths : List Bytes) × (find_move_files ≡ some paths) × Only paths file (meta ∷ []))
  unfolding lookup_script_by_name
  lookup_script_by_name-Only file meta h =
      let (paths, e, k) = >>=-eq-ok (of_option find_move_files _) _ h in
      let only =
        candidates-Only paths file (meta ∷ [])
          (only_file-eq-ok (candidates scripts name paths) file meta k) in
      (
        any_named-one meta only.kept.declares,
        (paths, of_option-eq-ok find_move_files not_loaded e, only),
      )
