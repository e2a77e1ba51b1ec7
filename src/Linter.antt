-- ===== src/Linter.antt =====
-- cmake/fix-linter-for-all.py: the loop that lints each file, applies the fixes and commits them.
-- The shell, `os.path`, the regular expressions and the temporary directory are parameters; so is the
-- order of the set of files, which is a list here.
pub mod Main
pub mod Laws
use control_system_adapter_o.Prelude.{
  ℕ, zero, suc, Bool, true, false, List, [], ◌∷◌, ◌++◌, if◌then◌else◌,
}
use control_system_adapter_o.Prelude.Text.{Text, codes}

-- The world that commands run in: each call gives its exit code and the world behind it.
pub record Shell : Type 1 where
  pub World : Type 0
  pub call : List Text → World → ℕ × World
  -- `tempfile.mkstemp(suffix='.yaml', dir=tmpdir)`: the name
  pub make_temp : Text → World → Text × World
  pub normalize : Text → Text
  pub directory_name : Text → Text
  pub relative_path : Text → Text → Text

-- The arguments, and what `main` computes of them before the loop
pub record Options : Type 0 where
  pub compile_db : Text
  pub tidy : Text
  pub apply_tool : Text
  pub git : Text
  pub is_excluded : Text → Bool
  pub has_ignore_insert_conflict : Bool
  pub temporary_directory : Text
  pub source_folder : Text

module _ (S : Shell) where
  -- The world, and the commands that ran in it, in their order
  pub record Session : Type 0 where
    pub world : S.World
    pub commands : List (List Text)

  -- `sys.exit(1)` stops the loop.
  pub data Outcome : Type 0 where
    going : Session → Outcome
    stopped : Session → Outcome

  abbrev pub log : List Text → Session → Session
  log command s = record {
    world = (S.call command s.world).1;
    commands = s.commands ++ (command ∷ []);
  }

  abbrev pub code_of : List Text → Session → ℕ
  code_of command s = (S.call command s.world).0

  module _ (o : Options) where
    unfoldable pub tidy_command : Text → Text → List Text
    tidy_command name file =
        o.tidy
        ∷ codes "-header-filter=.*"
        ∷ codes "-export-fixes"
        ∷ name
        ∷ (codes "-p=" ++ S.directory_name (S.normalize o.compile_db))
        ∷ file
        ∷ []

    unfoldable pub fixer_command : List Text
    fixer_command =
        (o.apply_tool
          ∷ codes "--format"
          ∷ codes "--style=file"
          ∷ codes "--remove-change-desc-files"
          ∷ [])
        ++ ((if o.has_ignore_insert_conflict then codes "--ignore-insert-conflict" ∷ [] else [])
            ++ (o.temporary_directory ∷ []))

    abbrev pub git_update : List Text
    git_update = o.git ∷ codes "add" ∷ codes "-u" ∷ []

    unfoldable pub git_commit : Text → List Text
    git_commit file =
        o.git
        ∷ codes "commit"
        ∷ codes "-m"
        ∷ (codes "clang-tidy: " ++ S.relative_path file o.source_folder)
        ∷ []

    abbrev pub commit_if : ℕ → Text → Session → Session
    commit_if zero file s = log (git_commit file) (log git_update s)
    commit_if (suc _) file s = s

    unfoldable pub apply_fixes : Text → Session → Session
    unfolding fixer_command git_commit
    apply_fixes file s = commit_if (code_of fixer_command s) file (log fixer_command s)

    abbrev pub after_tidy : ℕ → Text → Session → Outcome
    after_tidy zero file s = going (apply_fixes file s)
    after_tidy (suc _) file s = stopped s

    unfoldable pub lint_file : Text → Session → Outcome
    unfolding tidy_command apply_fixes
    lint_file file s =
        let temp = S.make_temp o.temporary_directory s.world in
        let s1 = record s { world = temp.1 } in
        let command = tidy_command temp.0 file in
        after_tidy (code_of command s1) file (log command s1)

    abbrev pub then_all : (Session → Outcome) → Outcome → Outcome
    then_all f (going s) = f s
    then_all f (stopped s) = stopped s

    unfoldable pub lint_all : List Text → Session → Outcome
    unfolding lint_file
    lint_all [] s = going s
    lint_all (file ∷ files) s =
        if o.is_excluded file
        then lint_all files s
        else then_all (lint_all files) (lint_file file s)
