-- ===== src/Linter/Laws.antt =====
-- Which commands the loop of fix-linter-for-all.py has run.
use mathlib.Core.List.{append_assoc, append-nil}
use control_system_adapter_o.Prelude.{
  ℕ, zero, suc, ◌≡◌, refl, sym, ap, ◌∙◌, Bool, true, false, List, [], ◌∷◌, ◌++◌, if◌then◌else◌,
  Bool-cases, inl, inr,
}
use control_system_adapter_o.Prelude.Text.{Text}
use control_system_adapter_o.Linter.{
  Shell, Options, Session, Outcome, going, stopped, log, code_of, tidy_command, fixer_command,
  git_update, git_commit, commit_if, apply_fixes, after_tidy, lint_file, then_all, lint_all,
}

module _ (S : Shell) (o : Options) where
  -- The commands for a file: clang-tidy, the tool that applies the fixes and, or not, the two commands
  -- of git.
  abbrev pub file_commands : Text → Text → Bool → List (List Text)
  file_commands name file fixed =
      tidy_command S o name file
      ∷ fixer_command S o
      ∷ (if fixed then git_update S o ∷ git_commit S o file ∷ [] else [])

  -- The commands of all files that are not excluded, one file after the other.
  abbrev pub AreCommands : List Text → List (List Text) → Type 0
  AreCommands [] commands = commands ≡ []
  AreCommands (file ∷ files) commands =
      if o.is_excluded file
      then AreCommands files commands
      else (name : Text) × (fixed : Bool) × (rest : List (List Text)) × (commands
          ≡ file_commands name file fixed ++ rest)
        × AreCommands files rest

  then_all-going :
      (r : Outcome S) (f : Session S → Outcome S) (t : Session S)
      → then_all S o f r ≡ going t
      → (u : Session S) × (r ≡ going u) × (f u ≡ going t)
  then_all-going (going u) f t h = (u, refl, h)
  then_all-going (stopped u) f t h = cc

  apply_fixes-commands :
      (file : Text) (s : Session S)
      → (fixed : Bool) × ((apply_fixes S o file s).commands
          ≡ s.commands
            ++ (fixer_command S o
                ∷ (if fixed then git_update S o ∷ git_commit S o file ∷ [] else [])))
  unfolding apply_fixes
  apply_fixes-commands file s = by_code (code_of S (fixer_command S o) s)
    where
      by_code :
          (n : ℕ)
          → (fixed : Bool) × ((commit_if S o n file (log S (fixer_command S o) s)).commands
              ≡ s.commands
                ++ (fixer_command S o
                    ∷ (if fixed then git_update S o ∷ git_commit S o file ∷ [] else [])))
      by_code zero = (true, rw (append_assoc, append_assoc) refl)
      by_code (suc n) = (false, refl)

  -- The commands that were added to the session in front of the given ones.
  abbrev Added : (List (List Text) → Type 0) → Session S → Session S → Type 0
  Added P s t = (rest : List (List Text)) × (t.commands ≡ s.commands ++ rest) × P rest

  going-injective : {a b : Session S} → going a ≡ going b → a ≡ b
  going-injective h = cc

  lint_file-commands :
      (file : Text) (s t : Session S)
      → lint_file S o file s ≡ going t
      → Added (λ rest. (name : Text) × (fixed : Bool) × (rest ≡ file_commands name file fixed)) s t
  unfolding lint_file
  lint_file-commands file s t h =
      let temp = S.make_temp o.temporary_directory s.world in
      let s1 : Session S = record s { world = temp.1 } in
      let command = tidy_command S o temp.0 file in
      by_code (code_of S command s1) (log S command s1) (temp.0) refl h
    where
      by_code :
          (n : ℕ) (s2 : Session S) (name : Text)
          → s2.commands ≡ s.commands ++ (tidy_command S o name file ∷ [])
          → after_tidy S o n file s2 ≡ going t
          → Added
              (λ rest. (name : Text) × (fixed : Bool) × (rest ≡ file_commands name file fixed))
              s
              t
      by_code zero s2 name k g =
          let applied = apply_fixes-commands file s2 in
          (
            file_commands name file applied.0,
            ap (λ u. u.commands) (sym (going-injective g)) ∙ applied.1 ∙ rw (k, append_assoc) refl,
            (name, applied.0, refl),
          )
      by_code (suc n) s2 name k g = cc

  -- If the loop is not stopped, the commands that it has run are exactly those of the files that are
  -- not excluded, in their order: for each file clang-tidy, then the tool that applies the fixes,
  -- then both commands of git or none.
  pub lint_all-AreCommands :
      (files : List Text) (s t : Session S)
      → lint_all S o files s ≡ going t
      → (rest : List (List Text)) × (t.commands ≡ s.commands ++ rest) × AreCommands files rest
  unfolding lint_all
  lint_all-AreCommands [] s t h =
      ([], ap (λ u. u.commands) (sym (going-injective h)) ∙ sym (append-nil s.commands), refl)
  lint_all-AreCommands (file ∷ files) s t h = elim (Bool-cases (o.is_excluded file)) [
    | inl excluded ↦ rw excluded (lint_all-AreCommands files s t (rw excluded at h))
    | inr kept ↦
        let first = then_all-going (lint_file S o file s) (lint_all S o files) t (rw kept at h) in
        let here = lint_file-commands file s first.0 first.1 in
        let later = lint_all-AreCommands files first.0 t first.2 in
        rw kept (
          here.0 ++ later.0,
          later.1 ∙ rw (here.1, append_assoc) refl,
          (here.2.0, here.2.1, later.0, rw here.2.2 refl, later.2),
        )
  ]
