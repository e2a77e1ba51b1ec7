-- ===== src/Directory/Parse.antt =====
-- The constructor of `XMLDirectory` and `parseDir`. The recursion follows the nesting of the elements.
-- Python raises a `RecursionError` when it goes too deep, and so does the model when its fuel is used
-- up; fuel above the height of the element is always enough.
use control_system_adapter_o.Prelude.{ℕ, zero, suc, ◌+◌, none, List, [], ◌∷◌, ◌++◌}
use control_system_adapter_o.Prelude.Text.{Text, codes}
use control_system_adapter_o.Prelude.Result.{
  Result, ok, err, key_error, recursion_error, require, ◌>>=◌,
}
use control_system_adapter_o.Etree.{Etree}
use control_system_adapter_o.Variable.{XmlVar, new_var}
use control_system_adapter_o.Directory.{
  DirectoryInfo, XmlDirectory, directory, Directories, nil, cons,
}

abbrev pub new_info : Text → Text → ℕ → DirectoryInfo
new_info name path level = record {
  exclude = none;
  historizing = none;
  name = name;
  path = path;
  new_name = none;
  new_description = none;
  new_destination = none;
  hierarchy_level = level;
}

module _ (L : Etree) where
  -- `for directory in data.findall('directory', …)`, where `make` is the constructor below
  unfoldable pub parse_dirs :
      (Text → L.Element → Result XmlDirectory) → List L.Element → Result Directories
  parse_dirs make [] = ok nil
  parse_dirs make (e ∷ es) = do
    name ← require key_error (L.attrib e "name")
    d ← make name e
    ds ← parse_dirs make es
    ok (cons d ds)

  -- `for var in data.findall('variable', …)`
  unfoldable pub parse_vars : Text → List L.Element → Result (List XmlVar)
  parse_vars path [] = ok []
  parse_vars path (e ∷ es) = do v ← new_var L e path; vs ← parse_vars path es; ok (v ∷ vs)

  -- `XMLDirectory(name, data, level, path)`
  unfoldable pub new_directory : ℕ → Text → L.Element → ℕ → Text → Result XmlDirectory
  unfolding parse_dirs parse_vars
  new_directory zero name e level path = err recursion_error
  new_directory (suc fuel) name e level path =
      let p = path ++ (codes "/" ++ name) in
      do
        ds ←
            parse_dirs (λ n c. new_directory fuel n c (level + 1) p)
              (L.findall e "directory" (L.nsmap e))
        vs ← parse_vars p (L.findall e "variable" (L.nsmap e))
        ok (directory (new_info name p level) ds vs)
