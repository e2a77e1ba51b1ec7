-- ===== src/Linter/Main.antt =====
-- The rest of `main` of fix-linter-for-all.py: the version of the tool that applies fixes, the compile
-- database, and the temporary directory. The parser of the arguments gives `Arguments`.
use control_system_adapter_o.Prelude.{
  ltb, Bool, false, Option, none, some, List, [], ◌∷◌, map, if◌then◌else◌,
}
use control_system_adapter_o.Prelude.Text.{Text, codes}
use control_system_adapter_o.Prelude.Number.{ℤ, pos, negsuc, int}
use control_system_adapter_o.Prelude.Result.{Exception, attribute_error, value_error}
use control_system_adapter_o.Linter.{Shell, Options, Session, Outcome, going, stopped, lint_all}

pub record Arguments : Type 0 where
  pub compile_db : Text
  pub tidy : Text
  pub apply_tool : Text
  pub git : Text
  pub source : Text
  pub exclude : Option Text

pub record Entry : Type 0 where
  pub file : Text
  pub directory : Text

-- What `json.load(open(name))` gives: the list, `FileNotFoundError` or `JSONDecodeError`
pub data Database : Type 0 where
  entries : List Entry → Database
  not_found not_json : Database

-- What the script uses of the libraries, besides the shell
pub record System (S : Shell) : Type 0 where
  pub is_absolute : Text → Bool
  pub join : Text → Text → Text
  pub absolute_path : Text → Text
  -- `subprocess.run(…, capture_output=True).stdout.strip()`
  pub output : List Text → S.World → Text × S.World
  -- the first group of the match of `version_regex`
  pub match_version : Text → Option Text
  pub load : Text → S.World → Database
  -- the elements of a set of texts, in the order of its iteration
  pub set_of : List Text → List Text
  -- `re.compile(expression).search(file)`
  pub search : Text → Text → Bool
  pub make_directory : S.World → Text × S.World
  pub remove_tree : Text → S.World → S.World

-- How `main` ends: an exception, `sys.exit(1)`, or the end of the function
pub data Ending (S : Shell) : Type 0 where
  failed : Exception → S.World → Ending S
  exited : S.World → Ending S
  finished : Session S → Ending S

module _ (S : Shell) (Y : System S) where
  -- `make_absolute(file, path)`
  unfoldable pub make_absolute : Entry → Text
  make_absolute e = if Y.is_absolute e.file then e.file else S.normalize (Y.join e.directory e.file)

  -- `exclude_re and exclude_re.search(file)`, where no expression is an empty one or none
  abbrev pub excludes : Option Text → Text → Bool
  excludes none file = false
  excludes (some []) file = false
  excludes (some (c ∷ t)) file = Y.search (c ∷ t) file

  -- The files of the compile database; none of them for a database that cannot be read
  unfoldable pub files_of : Database → List Text
  unfolding make_absolute
  files_of (entries es) = Y.set_of (map make_absolute es)
  files_of not_found = []
  files_of not_json = []

  abbrev pub is_newer : ℤ → Bool
  is_newer (pos n) = ltb 14 n
  is_newer (negsuc n) = false

  abbrev pub options_of : Arguments → Bool → Text → Options
  options_of a ignores folder = record {
    compile_db = a.compile_db;
    tidy = a.tidy;
    apply_tool = a.apply_tool;
    git = a.git;
    is_excluded = excludes a.exclude;
    has_ignore_insert_conflict = ignores;
    temporary_directory = folder;
    source_folder = Y.absolute_path a.source;
  }

  abbrev pub cleaned : Text → Outcome S → Ending S
  cleaned folder (stopped s) = exited s.world
  cleaned folder (going s) = finished (record s { world = Y.remove_tree folder s.world })

  -- Behind reading the version and the files
  abbrev pub run_files : Arguments → Bool → List Text → S.World → Ending S
  run_files a ignores [] w = exited w
  run_files a ignores (file ∷ files) w =
      let temporary = Y.make_directory w in
      cleaned temporary.0 (
        lint_all S (options_of a ignores temporary.0) (file ∷ files)
          (record { world = temporary.1; commands = [] }))

  abbrev pub with_version : Arguments → Option Text → S.World → Ending S
  with_version a none w = failed attribute_error w
  with_version a (some t) w = elim (int t) [
    | none ↦ failed value_error w
    | some z ↦ run_files a (is_newer z) (files_of (Y.load a.compile_db w)) w
  ]

  unfoldable pub main : Arguments → S.World → Ending S
  unfolding files_of int lint_all
  main a w =
      let version = Y.output (a.apply_tool ∷ codes "--version" ∷ []) w in
      with_version a (Y.match_version version.0) version.1
