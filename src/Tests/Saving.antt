-- ===== src/Tests/Saving.antt =====
-- Saving a map file and loading it.
use control_system_adapter_o.Prelude.{◌++◌, ◌≡◌, refl, true, none, some, []}
use control_system_adapter_o.Prelude.Text.{codes}
use control_system_adapter_o.Prelude.Number.{pos}
use control_system_adapter_o.Prelude.Result.{ok, state}
use control_system_adapter_o.Etree.Tree.{Node, tree}
use control_system_adapter_o.Directory as Dir
use control_system_adapter_o.Directory.{DirectoryInfo, XmlDirectory, directory}
use control_system_adapter_o.Config.{Config, new_config}
use control_system_adapter_o.Config.Write.{
  create_config, add_lds, add_login, add_security, add_historizing, config_element, add_void,
}
use control_system_adapter_o.Config.Check.{full_config}
use control_system_adapter_o.Config.RoundTrip.{restored}
use control_system_adapter_o.Etree.Build.{append_if}
use control_system_adapter_o.Generator.{MapGenerator, blank}
use control_system_adapter_o.Generator.MapFile.{csa_nsmap, add_entries, save, parse_map_file}
use control_system_adapter_o.Variable.Write.{root_slash}
use control_system_adapter_o.Directory.Write.{dir_exclude}
use control_system_adapter_o.Generator.MapFile.{Reading, exclude_entry}
use control_system_adapter_o.Generator.Exclude.{IsMarked, exclude_entry-dir_exclude}
use control_system_adapter_o.Generator.SaveLoad.{parse_map_file-save}

abbrev hall : XmlDirectory
hall =
    directory
      (record {
        exclude = some true;
        historizing = none;
        name = codes "root";
        path = codes "/root";
        new_name = none;
        new_description = none;
        new_destination = none;
        hierarchy_level = 0;
      })
      Dir.nil []

abbrev module_info : DirectoryInfo
module_info = record {
  exclude = none;
  historizing = none;
  name = codes "module";
  path = codes "/root/module";
  new_name = none;
  new_description = none;
  new_destination = none;
  hierarchy_level = 1;
}

abbrev demo_dir : XmlDirectory
demo_dir =
    directory
      (record module_info { name = codes "root"; path = codes "/root"; hierarchy_level = 0 })
      (Dir.cons (directory module_info Dir.nil []) Dir.nil) []

abbrev settings : Config
settings = record new_config {
  port = some (pos 11000);
  enable_login = true;
  username = some (codes "user");
  password = some (codes "secret");
}

abbrev generator : MapGenerator
generator = record (blank none) { config = settings; dir = some hall }

abbrev root : Node
root = tree.element "uamapping" csa_nsmap

abbrev built : Node
built = add_entries tree (some hall) (tree.append root (full_config tree settings root))

saved : save tree generator ≡ ok built
unfolding save create_config full_config add_lds add_login add_security add_historizing append_if
    config_element add_void
saved = refl

parse_map_file-save_example :
    (state (
      parse_map_file tree
        (λ name. ok built)
        (codes "demo.map")
        (record (blank none) { dir = some hall }))).0.config
    ≡ restored settings
parse_map_file-save_example =
    parse_map_file-save tree generator (record (blank none) { dir = some hall }) (codes "demo.map")
      built refl saved

abbrev reading : Reading
reading = record { tree = demo_dir; folders_skipped = 0; pvs_skipped = 0; excludes_skipped = 0 }

exclude_entry-dir_exclude_example :
    IsMarked
      (root_slash ++ codes "module")
      reading
      (exclude_entry tree (dir_exclude tree module_info root) reading)
exclude_entry-dir_exclude_example =
    exclude_entry-dir_exclude tree module_info root (codes "module") reading refl
