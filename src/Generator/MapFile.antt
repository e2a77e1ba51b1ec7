-- ===== src/Generator/MapFile.antt =====
-- `MapGenerator.parseMapFile` and `save`.
use control_system_adapter_o.Prelude.{
  ℕ, ◌+◌, ◌==◌, true, false, Option, none, some, List, [], ◌∷◌, ◌++◌, if◌then◌else◌,
}
use control_system_adapter_o.Prelude.Text.{Text, codes, text_eq, ends_with, drop_last, strip}
use control_system_adapter_o.Prelude.Result.{
  Result, ok, err, Run, done, raised, state, runtime_error, type_error, ◌▷◌, ◌>>=◌,
}
use control_system_adapter_o.Etree.{Etree, Nsmap}
use control_system_adapter_o.Variable.{XmlVar}
use control_system_adapter_o.Variable.Write.{root_slash}
use control_system_adapter_o.Variable.Read.{read_pv}
use control_system_adapter_o.Directory.{
  DirectoryInfo, XmlDirectory, info, find_dir, find_var, change_dir, change_var, reset,
}
use control_system_adapter_o.Directory.Write.{generate_map_entries}
use control_system_adapter_o.Config.{Config}
use control_system_adapter_o.Config.Write.{create_config}
use control_system_adapter_o.Config.Read.{read_config}
use control_system_adapter_o.Generator.{MapGenerator}
use control_system_adapter_o.Generator.Folder.{read_folder}

-- The tree, with the numbers of the folder, variable and exclude entries whose source is not found
pub record Reading : Type 0 where
  pub tree : XmlDirectory
  pub folders_skipped : ℕ
  pub pvs_skipped : ℕ
  pub excludes_skipped : ℕ

abbrev pub skip_folder : Reading → Reading
skip_folder s = record s { folders_skipped = s.folders_skipped + 1 }

abbrev pub skip_pv : Reading → Reading
skip_pv s = record s { pvs_skipped = s.pvs_skipped + 1 }

abbrev pub skip_exclude : Reading → Reading
skip_exclude s = record s { excludes_skipped = s.excludes_skipped + 1 }

-- What a statement on an object raises is raised behind its changes.
abbrev pub raise_after {ℓ κ} : {A : Type ℓ} {S : Type κ} → Run A → S → Run S
raise_after (done a) s = done s
raise_after (raised e a) s = raised e s

module _ (L : Etree) where
  -- What a folder entry makes of a directory
  unfoldable pub folder_change : L.Element → DirectoryInfo → DirectoryInfo
  unfolding read_folder
  folder_change folder i = (state (read_folder L folder i)).at

  abbrev pub folder_found : L.Element → Text → Reading → Option XmlDirectory → Run Reading
  folder_found folder t s none = done (skip_folder s)
  folder_found folder t s (some d) =
      raise_after (read_folder L folder (info d))
        (record s { tree = change_dir (folder_change folder) t s.tree })

  unfoldable pub folder_at : L.Element → Text → Reading → Run Reading
  unfolding folder_change
  folder_at folder t s = folder_found folder t s (find_dir s.tree t)

  abbrev pub describe_found : Option L.Element → Text → Reading → Option XmlDirectory → Reading
  describe_found description t s none = skip_folder s
  describe_found none t s (some d) = s
  describe_found (some e) t s (some d) = record s {
    tree = change_dir (λ i. record i { new_description = L.text e }) t s.tree;
  }

  -- A folder without a source name only gives a description.
  unfoldable pub describe_at : Option L.Element → Text → Reading → Reading
  describe_at description t s = describe_found description t s (find_dir s.tree t)

  abbrev pub text_in : Option L.Element → Option Text
  text_in none = none
  text_in (some e) = L.text e

  abbrev pub folder_target : Option Text → Text → Text
  folder_target none name = root_slash ++ name
  folder_target (some destination) name = root_slash ++ (destination ++ (codes "/" ++ name))

  abbrev pub folder_named : L.Element → Reading → Option Text → Run Reading
  folder_named folder s none = raised type_error s
  folder_named folder s (some name) = done (
      describe_at (L.find folder "description" (L.nsmap folder))
        (folder_target (text_in (L.find folder "destination" (L.nsmap folder))) name) s)

  -- Without a name the path is put together from `None`: a `TypeError`.
  unfoldable pub folder_without_source : L.Element → Reading → Run Reading
  unfolding describe_at
  folder_without_source folder s =
      folder_named folder s (text_in (L.find folder "name" (L.nsmap folder)))

  abbrev pub folder_from : L.Element → Reading → Option Text → Run Reading
  folder_from folder s none = folder_without_source folder s
  folder_from folder s (some source) = folder_at folder (root_slash ++ source) s

  unfoldable pub folder_entry : L.Element → Reading → Run Reading
  unfolding folder_at folder_without_source
  folder_entry folder s = folder_from folder s (L.attrib folder "sourceName")

  abbrev pub pv_found : L.Element → Text → Reading → Option XmlVar → Reading
  pv_found pv t s none = skip_pv s
  pv_found pv t s (some v) = record s { tree = change_var (read_pv L pv) t s.tree }

  unfoldable pub pv_at : L.Element → Text → Reading → Reading
  pv_at pv t s = pv_found pv t s (find_var s.tree t)

  abbrev pub pv_from : L.Element → Reading → Option Text → Reading
  pv_from pv s none = s
  pv_from pv s (some source) = pv_at pv (root_slash ++ strip (λ c. c == b'/') source) s

  unfoldable pub pv_entry : L.Element → Reading → Reading
  unfolding pv_at strip
  pv_entry pv s = pv_from pv s (L.attrib pv "sourceName")

  abbrev pub exclude_dir_found : Text → Reading → Option XmlDirectory → Reading
  exclude_dir_found t s none = skip_exclude s
  exclude_dir_found t s (some d) = record s {
    tree = change_dir (λ i. record i { exclude = some true }) t s.tree;
  }

  unfoldable pub exclude_dir : Text → Reading → Reading
  exclude_dir t s = exclude_dir_found t s (find_dir s.tree t)

  abbrev pub exclude_var_found : Text → Reading → Option XmlVar → Reading
  exclude_var_found t s none = skip_exclude s
  exclude_var_found t s (some v) = record s {
    tree = change_var (λ v. record v { exclude = some true }) t s.tree;
  }

  unfoldable pub exclude_var : Text → Reading → Reading
  exclude_var t s = exclude_var_found t s (find_var s.tree t)

  abbrev pub exclude_from : Reading → Option Text → Reading
  exclude_from s none = s
  exclude_from s (some source) =
      if ends_with (codes "/*") source
      then exclude_dir (root_slash ++ drop_last 2 source) s
      else exclude_var (root_slash ++ source) s

  unfoldable pub exclude_entry : L.Element → Reading → Reading
  unfolding exclude_dir exclude_var ends_with drop_last
  exclude_entry e s = exclude_from s (L.attrib e "sourceName")

  unfoldable pub folder_entries : List L.Element → Reading → Run Reading
  unfolding folder_entry
  folder_entries [] s = done s
  folder_entries (e ∷ es) s = folder_entry e s ▷ folder_entries es

  unfoldable pub pv_entries : List L.Element → Reading → Reading
  unfolding pv_entry
  pv_entries [] s = s
  pv_entries (e ∷ es) s = pv_entries es (pv_entry e s)

  unfoldable pub exclude_entries : List L.Element → Reading → Reading
  unfolding exclude_entry
  exclude_entries [] s = s
  exclude_entries (e ∷ es) s = exclude_entries es (exclude_entry e s)

  unfoldable pub read_entries : L.Element → XmlDirectory → Run Reading
  unfolding folder_entries pv_entries exclude_entries
  read_entries e d =
      folder_entries (L.findall e "folder" (L.nsmap e))
        (record { tree = d; folders_skipped = 0; pvs_skipped = 0; excludes_skipped = 0 })
      ▷ (λ s. done (
          exclude_entries (L.findall e "exclude" (L.nsmap e))
            (pv_entries (L.findall e "process_variable" (L.nsmap e)) s)))

-- `[nDirectories, nPvs, nExcludes]`
pub record Skipped : Type 0 where
  pub directories : ℕ
  pub pvs : ℕ
  pub excludes : ℕ

abbrev pub none_skipped : Skipped
none_skipped = record { directories = 0; pvs = 0; excludes = 0 }

abbrev pub skipped : Reading → Skipped
skipped s = record {
  directories = s.folders_skipped;
  pvs = s.pvs_skipped;
  excludes = s.excludes_skipped;
}

-- The map file's namespace
abbrev pub csa_nsmap : Nsmap
csa_nsmap =
    (some (codes "csa"), codes "https://github.com/ChimeraTK/ControlSystemAdapter-OPC-UA-Adapter")
    ∷ []

module _ (L : Etree) where
  -- `if self.dir: self.dir.reset()`
  unfoldable pub reset_tree : MapGenerator → MapGenerator
  unfolding reset
  reset_tree g = record g { dir = elim g.dir [ none ↦ none | some d ↦ some (reset d) ] }

  abbrev pub with_tree : MapGenerator → Run Reading → Run (MapGenerator × Skipped)
  with_tree g (done s) = done (record g { dir = some s.tree }, skipped s)
  with_tree g (raised e s) = raised e (record g { dir = some s.tree }, skipped s)

  unfoldable pub parse_tree_entries :
      L.Element → Option XmlDirectory → MapGenerator → Run (MapGenerator × Skipped)
  unfolding read_entries
  parse_tree_entries e none g = done (g, none_skipped)
  parse_tree_entries e (some d) g = with_tree g (read_entries L e d)

  abbrev pub with_config : L.Element → MapGenerator → Run Config → Run (MapGenerator × Skipped)
  with_config e g (done c) = parse_tree_entries e g.dir (record g { config = c })
  with_config e g (raised x c) = raised x (record g { config = c }, none_skipped)

  -- The test on the namespace makes an exception and does not raise it, so it is left out.
  unfoldable pub parse_uamapping : L.Element → MapGenerator → Run (MapGenerator × Skipped)
  unfolding parse_tree_entries text_eq
  parse_uamapping e g =
      if text_eq (L.tag e) (codes "uamapping")
      then with_config e g (read_config L e g.config)
      else raised
          (runtime_error
            "Failed to find uamapping tag. Not an ControlSystem-OPC-UA XML mapping file.")
          (g, none_skipped)

  abbrev pub with_file : Result L.Element → MapGenerator → Run (MapGenerator × Skipped)
  with_file (err x) g = raised x (g, none_skipped)
  with_file (ok e) g = parse_uamapping e g

  -- Opening and parsing the file is a parameter.
  unfoldable pub parse_map_file :
      (Text → Result L.Element) → Text → MapGenerator → Run (MapGenerator × Skipped)
  unfolding reset_tree parse_uamapping
  parse_map_file open_file input g = with_file (open_file input) (reset_tree g)

  abbrev pub add_entries : Option XmlDirectory → L.Element → L.Element
  add_entries none root = root
  add_entries (some d) root = generate_map_entries L d root false false

  -- `save` up to the text of the file: the root element that is printed
  unfoldable pub save : MapGenerator → Result L.Element
  save g = do
    root ← create_config L g.config (L.element "uamapping" csa_nsmap)
    ok (add_entries g.dir root)
