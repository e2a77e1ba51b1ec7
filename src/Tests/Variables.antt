-- ===== src/Tests/Variables.antt =====
-- Runs of the tree part: `XMLVar`, `XMLDirectory` and the two readers of `MapGenerator`.
use control_system_adapter_o.Prelude.{
  ◌≡◌, ◌≢◌, refl, true, false, none, some, List, [], ◌∷◌, ◌++◌, arith,
}
use control_system_adapter_o.Prelude.Text.{Text, codes, opt_eq, text_eq, remove_prefix}
use control_system_adapter_o.Prelude.Number.{pos, int}
use control_system_adapter_o.Prelude.Result.{Result, ok, err, state, recursion_error}
use control_system_adapter_o.Etree.Tree.{Node, tree, select, node, nil, cons, height}
use control_system_adapter_o.Variable.{XmlVar, reset_var, var_eq, new_var}
use control_system_adapter_o.Variable.Write.{var_entry}
use control_system_adapter_o.Variable.Read.{read_pv}
use control_system_adapter_o.Variable.RoundTrip.{stored_var, read_pv-var_entry}
use control_system_adapter_o.Directory as Dir
use control_system_adapter_o.Directory.{
  DirectoryInfo, XmlDirectory, directory, find_dir, find_var, change_dir, change_var, is_at,
}
use control_system_adapter_o.Directory.Parse.{new_directory}
use control_system_adapter_o.Directory.Total.{new_directory-IsReached}
use control_system_adapter_o.Directory.Search.{
  all_dirs, all_vars, first_of_list, find_dir-eq-first, find_var-eq-first,
}
use control_system_adapter_o.Directory.Invariant.{IsWellFormed, new_directory-IsWellFormed}
use control_system_adapter_o.Directory.Write.{generate_map_entries}
use control_system_adapter_o.Directory.Entries.{sources, excludes, sources-generate_map_entries}
use control_system_adapter_o.Generator.{MapGenerator, blank}
use control_system_adapter_o.Generator.Chimera.{parse_chimera_tk}
use control_system_adapter_o.Generator.MapFile.{csa_nsmap, parse_map_file}
use control_system_adapter_o.Generator.Laws.{
  HasRooted, parse_map_file-HasRooted, parse_chimera_tk-HasRooted,
}

abbrev leaf : Text → Text → Node
leaf t x = node t [] [] (some x) nil

abbrev pump : Node
pump = node (codes "variable") [] (("name", codes "pump") ∷ []) none (
    cons (leaf (codes "value_type") (codes "int32")) (
      cons (leaf (codes "numberOfElements") (codes "4")) (
        cons (leaf (codes "unit") (codes "bar")) (
          cons (leaf (codes "direction") (codes "control_system_to_application"))
            (cons (leaf (codes "description") (codes "Pressure")) nil)))))

abbrev module_element : Node
module_element = node (codes "directory") [] (("name", codes "module") ∷ []) none (cons pump nil)

abbrev application : Node
application =
    node (codes "application") [] (("name", codes "demo") ∷ []) none (cons module_element nil)

abbrev pump_var : XmlVar
pump_var = record {
  exclude = none;
  historizing = none;
  name = codes "pump";
  new_name = none;
  value_type = some (codes "int32");
  number_of_elements = pos 4;
  unit = some (codes "bar");
  new_unit = none;
  direction = some (codes "control_system_to_application");
  description = some (codes "Pressure");
  new_description = none;
  new_destination = none;
  full_name = codes "/root/module/pump";
}

abbrev module_info : DirectoryInfo
module_info = record {
  exclude = none;
  historizing = none;
  name = codes "module";
  path = codes "/root/module";
  new_name = none;
  new_description = none;
  new_destination = none;
  hierarchy_level = 1;
}

abbrev module_dir : List XmlVar → XmlDirectory
module_dir vs = directory module_info Dir.nil vs

abbrev root_dir : XmlDirectory → XmlDirectory
root_dir d =
    directory
      (record module_info { name = codes "root"; path = codes "/root"; hierarchy_level = 0 })
      (Dir.cons d Dir.nil) []

abbrev demo : XmlDirectory
demo = root_dir (module_dir (pump_var ∷ []))

abbrev open_file : Text → Result Node
open_file t = ok application

abbrev generator : MapGenerator
generator = blank (some (codes "demo.xml"))

read_demo : new_directory tree 2 (codes "root") application 0 [] ≡ ok demo
unfolding new_directory select new_var int
read_demo = refl

module_found : find_dir demo (codes "/root/module") ≡ some (module_dir (pump_var ∷ []))
unfolding find_dir text_eq
module_found = refl

pump_found : find_var demo (codes "/root/module/pump") ≡ some pump_var
unfolding find_var text_eq
pump_found = refl

demo-IsWellFormed : IsWellFormed [] 0 demo
demo-IsWellFormed = new_directory-IsWellFormed tree 2 (codes "root") application 0 [] demo read_demo

new_directory-IsWellFormed_example : IsWellFormed [] 0 demo
new_directory-IsWellFormed_example =
    new_directory-IsWellFormed tree 2 (codes "root") application 0 [] demo read_demo

new_directory-IsReached_example :
    new_directory tree 8 (codes "root") application 0 [] ≢ err recursion_error
unfolding height
new_directory-IsReached_example =
    new_directory-IsReached tree 8 (codes "root") application 0 [] (omega arith)

find_dir-eq-first_example :
    find_dir demo (codes "/root/module")
    ≡ first_of_list (λ e. is_at e (codes "/root/module")) (all_dirs demo)
find_dir-eq-first_example = find_dir-eq-first (codes "/root/module") demo

find_var-eq-first_example :
    find_var demo (codes "/root/module/pump")
    ≡ first_of_list (λ v. var_eq v (codes "/root/module/pump")) (all_vars demo)
find_var-eq-first_example = find_var-eq-first (codes "/root/module/pump") demo

abbrev root : Node
root = tree.element "uamapping" csa_nsmap

abbrev exclude_pump : XmlVar → XmlVar
exclude_pump v = record v { exclude = some true }

abbrev without_pump : XmlDirectory
without_pump = root_dir (module_dir (exclude_pump pump_var ∷ []))

pump_excluded : excludes without_pump false ≡ some (codes "module/pump") ∷ []
unfolding remove_prefix
pump_excluded = refl

sources-generate_map_entries_example :
    sources tree csa_nsmap refl (generate_map_entries tree without_pump root false false)
    ≡ sources tree csa_nsmap refl root ++ excludes without_pump false
sources-generate_map_entries_example =
    sources-generate_map_entries tree csa_nsmap refl without_pump root false false

abbrev renamed : XmlVar
renamed = record pump_var {
  new_name = some (codes "p1");
  new_unit = some (codes "kPa");
  new_destination = some (codes "/root/hall");
  historizing = some (codes "slow");
}

read_pv-var_entry_example :
    read_pv tree
      (var_entry tree renamed false root (codes "/root/module"))
      (record (reset_var renamed) { historizing = none })
    ≡ stored_var renamed false
unfolding opt_eq
read_pv-var_entry_example =
    read_pv-var_entry tree renamed false root (codes "/root/module") refl refl

parse_chimera_tk-HasRooted_example :
    HasRooted tree (state (parse_chimera_tk tree open_file generator)).dir
parse_chimera_tk-HasRooted_example = parse_chimera_tk-HasRooted tree open_file generator tt

parse_map_file-HasRooted_example :
    HasRooted tree
      (state (
        parse_map_file tree open_file
          (codes "demo.map")
          (record generator { dir = some demo }))).0.dir
parse_map_file-HasRooted_example =
    parse_map_file-HasRooted tree open_file (codes "demo.map")
      (record generator { dir = some demo }) demo-IsWellFormed
