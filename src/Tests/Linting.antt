-- ===== src/Tests/Linting.antt =====
-- Runs of the linter loop.
use control_system_adapter_o.Prelude.{
  ℕ, suc, ◌≡◌, refl, true, false, none, some, List, [], ◌∷◌, ◌++◌,
}
use control_system_adapter_o.Prelude.Text.{Text, codes, text_eq}
use control_system_adapter_o.Linter.{Shell, Options, Session, going, lint_all}
use control_system_adapter_o.Linter.Main.{System, Arguments, entries, finished, main}
use control_system_adapter_o.Linter.Laws.{AreCommands, file_commands, lint_all-AreCommands}

-- A shell in which every command succeeds.
abbrev shell : Shell
shell = record {
  World = ℕ;
  call = λ command w. (0, suc w);
  make_temp = λ folder w. (folder ++ codes "/fixes.yaml", suc w);
  normalize = λ t. t;
  directory_name = λ t. t;
  relative_path = λ t start. t;
}

abbrev options : Options
options = record {
  compile_db = codes "build";
  tidy = codes "clang-tidy-22";
  apply_tool = codes "clang-apply-replacements-14";
  git = codes "git";
  is_excluded = λ t. text_eq t (codes "/src/skip.cpp");
  has_ignore_insert_conflict = false;
  temporary_directory = codes "/tmp/fixes";
  source_folder = codes "/src";
}

abbrev files : List Text
files = codes "/src/skip.cpp" ∷ codes "/src/a.cpp" ∷ []

abbrev before : Session shell
before = record { world = 0; commands = [] }

abbrev after : Session shell
after = record {
  world = 5;
  commands = file_commands shell options (codes "/tmp/fixes/fixes.yaml") (codes "/src/a.cpp") true;
}

linted : lint_all shell options files before ≡ going after
unfolding lint_all text_eq
linted = refl

lint_all-AreCommands_example :
    (rest : List (List Text)) × (after.commands ≡ before.commands ++ rest)
    × AreCommands shell options files rest
lint_all-AreCommands_example = lint_all-AreCommands shell options files before after linted

-- A database of one file, and a tool of the version 14
abbrev system : System shell
system = record {
  is_absolute = λ t. false;
  join = λ folder t. folder ++ (codes "/" ++ t);
  absolute_path = λ t. t;
  output = λ command w. (codes "14", suc w);
  match_version = λ t. some t;
  load = λ name w. entries (record { file = codes "a.cpp"; directory = codes "/src" } ∷ []);
  set_of = λ ts. ts;
  search = λ expression t. false;
  make_directory = λ w. (codes "/tmp/fixes", w);
  remove_tree = λ folder w. suc w;
}

abbrev arguments : Arguments
arguments = record {
  compile_db = codes "build";
  tidy = codes "clang-tidy-22";
  apply_tool = codes "clang-apply-replacements-14";
  git = codes "git";
  source = codes "/src";
  exclude = none;
}

all_linted :
    main shell system arguments 0
    ≡ finished (record {
      world = 7;
      commands =
          file_commands shell options (codes "/tmp/fixes/fixes.yaml") (codes "/src/a.cpp") true;
    })
unfolding main
all_linted = refl
