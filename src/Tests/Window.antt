-- ===== src/Tests/Window.antt =====
-- Runs of the main window: its tree, its fields, opening, saving and new names.
use control_system_adapter_o.Prelude.{◌≡◌, refl, true, false, Option, none, some, List, [], ◌∷◌}
use control_system_adapter_o.Prelude.Text.{Text, codes, text_eq, is_none}
use control_system_adapter_o.Prelude.Number.{pos}
use control_system_adapter_o.Prelude.Result.{Result, ok, err, input_error, done}
use control_system_adapter_o.Etree.Tree.{Node, tree}
use control_system_adapter_o.Variable.{XmlVar}
use control_system_adapter_o.Directory as Model
use control_system_adapter_o.Directory.{DirectoryInfo, XmlDirectory, directory}
use control_system_adapter_o.Config.{new_config}
use control_system_adapter_o.Generator.{MapGenerator, blank}
use control_system_adapter_o.Form.Qt.{contains}
use control_system_adapter_o.Form.Qt.Plain.{plain, Box}
use control_system_adapter_o.Form.View.{Row, ViewDirectory, folder, nil, shown}
use control_system_adapter_o.Form.View.Rows.{create_directory_node, no_history}
use control_system_adapter_o.Form.View.Shown.{shown-create_directory_node}
use control_system_adapter_o.Form.View.Edit as Edit
use control_system_adapter_o.Form.View.Edit.{
  ShowsDirectory, ShowsVariable, update_directory_item, update_variable_item,
  update_directory_item-ShowsDirectory, update_variable_item-ShowsVariable,
}
use control_system_adapter_o.Form.Window.{Fields, Window, fill_config}
use control_system_adapter_o.Form.Window.Settings.{with_text, shown_config, configured-fill_config}
use control_system_adapter_o.Form.Window.Files.{new_window, save_file}
use control_system_adapter_o.Form.Window.Histories.{new_name}
use control_system_adapter_o.Form.Window.NewName.{new_name_found}
use control_system_adapter_o.Form.View.Target as Target
use control_system_adapter_o.Form.View.Top.{root_place}
use control_system_adapter_o.Form.Window.Events as Events
use control_system_adapter_o.Form.Window.Events.{Event, handle_all, set_field, configured}
use control_system_adapter_o.Form.Window.Consistent.{IsConsistent}
use control_system_adapter_o.Form.Window.Consistent.Session.{session-IsConsistent}
use control_system_adapter_o.Form.Window.Saving.{Outcome, save_file-Outcome}

abbrev pump : XmlVar
pump = record {
  exclude = none;
  historizing = none;
  name = codes "pump";
  new_name = none;
  value_type = some (codes "int32");
  number_of_elements = pos 4;
  unit = some (codes "bar");
  new_unit = none;
  direction = some (codes "control_system_to_application");
  description = some (codes "Pressure");
  new_description = none;
  new_destination = none;
  full_name = codes "/root/pump";
}

abbrev root_info : DirectoryInfo
root_info = record {
  exclude = none;
  historizing = none;
  name = codes "root";
  path = codes "/root";
  new_name = none;
  new_description = none;
  new_destination = none;
  hierarchy_level = 0;
}

abbrev demo : XmlDirectory
demo = directory root_info Model.nil (pump ∷ [])

abbrev histories : Box
histories = record { entries = no_history ∷ codes "slow" ∷ []; current = no_history; object = none }

abbrev row : Row plain
row = record {
  name = codes "root";
  unit = [];
  description = [];
  destination = [];
  name_red = false;
  unit_red = false;
  description_red = false;
  destination_red = false;
  is_input = false;
  is_expanded = true;
  exclude = false;
  history = histories;
  history_enabled = true;
}

abbrev pump_row : Row plain
pump_row = record row {
  name = codes "pump";
  unit = codes "bar";
  description = codes "Pressure";
  is_input = true;
  is_expanded = false;
}

abbrev view : ViewDirectory plain
view = folder row root_info nil ((pump_row, pump) ∷ [])

abbrev view_without_histories : Result (ViewDirectory plain)
view_without_histories = create_directory_node plain demo true

abbrev made : Box
made = record { entries = no_history ∷ []; current = no_history; object = none }

abbrev made_view : ViewDirectory plain
made_view =
    folder (record row { history = made }) root_info nil
      ((record pump_row { history = made }, pump) ∷ [])

created : create_directory_node plain demo true ≡ ok made_view
unfolding create_directory_node text_eq
created = refl

shown-create_directory_node_example : shown plain made_view ≡ demo
shown-create_directory_node_example = shown-create_directory_node plain demo true made_view created

pump_shown : ShowsVariable plain pump_row pump
pump_shown = record {
  name = refl;
  name_red = refl;
  unit = λ h. refl;
  unit_red = refl;
  description_red = refl;
  destination = refl;
  destination_red = refl;
}

root_shown : ShowsDirectory plain row root_info
root_shown = record {
  name = refl;
  name_red = refl;
  unit = refl;
  description = refl;
  description_red = refl;
  destination = refl;
  destination_red = refl;
}

update_variable_item-ShowsVariable_example :
    ShowsVariable plain
      (update_variable_item plain Edit.unit (codes "kPa") (pump_row, pump)).0
      (update_variable_item plain Edit.unit (codes "kPa") (pump_row, pump)).1
update_variable_item-ShowsVariable_example =
    update_variable_item-ShowsVariable plain Edit.unit (codes "kPa") pump_row pump pump_shown

update_directory_item-ShowsDirectory_example :
    ShowsDirectory plain
      (update_directory_item plain Edit.name (codes "lab") (row, root_info)).0
      (update_directory_item plain Edit.name (codes "lab") (row, root_info)).1
update_directory_item-ShowsDirectory_example =
    update_directory_item-ShowsDirectory plain Edit.name (codes "lab") row root_info root_shown

abbrev level_box : Box
level_box = record {
  entries = codes "TRACE" ∷ codes "INFO" ∷ [];
  current = codes "TRACE";
  object = none;
}

abbrev fields : Fields plain
fields = record {
  user_name = codes "old";
  password = [];
  application_name = [];
  root_folder = [];
  application_description = [];
  port = record { high = 99999; raw = pos 0 };
  log_level = level_box;
  use_bool_as_void = false;
  enable_login = false;
  enable_encryption = false;
  login_enabled = false;
  configure_encryption_enabled = false;
}

abbrev window : Window plain
window = record {
  generator = none;
  fields = fields;
  tree = none;
  histories = histories;
  histories_enabled = false;
  save_enabled = false;
}

abbrev ap_name : Option MapGenerator → Option Text
ap_name none = none
ap_name (some g) = g.config.application_name

abbrev open_xml : Text → Result Node
open_xml name = ok (tree.element "application" [])

-- A file is opened, its tree is edited, a history is added and chosen, and the file that is loaded next
-- is no map file.
abbrev session : List (Event plain)
session =
    Events.opened (codes "demo.xml")
    ∷ Events.touched (Target.set_exclude true) [] none
    ∷ Events.dropped [] none [] none
    ∷ Events.typed_text Events.application_name (codes "demo")
    ∷ Events.set_inputs true root_place
    ∷ Events.loaded (codes "demo.xml")
    ∷ []

session-IsConsistent_example : IsConsistent plain (
    handle_all plain tree open_xml session
      (new_window plain tree open_xml none true false [] window))
session-IsConsistent_example =
    session-IsConsistent plain tree open_xml none true false [] window session refl refl

-- The application name that is typed is there at the end of the session.
session_name :
    ap_name (handle_all plain tree open_xml session window).generator ≡ some (codes "demo")
unfolding handle_all text_eq control_system_adapter_o.Etree.Tree.select
session_name = refl

abbrev generator : MapGenerator
generator = record (blank none) { dir = some demo }

-- A missing user name becomes the text that the field had before.
configured-fill_config_example :
    configured plain
      (set_field plain Events.password (codes "a") (fill_config plain new_config fields))
      (record window { generator = some generator })
    ≡ done (record window {
      fields = set_field plain Events.password (codes "a") (fill_config plain new_config fields);
      generator = some (record generator {
        config = with_text plain Events.password (codes "a") (shown_config plain new_config fields);
      });
    })
unfolding text_eq
configured-fill_config_example =
    configured-fill_config plain Events.password (codes "a") generator fields
      (record window { generator = some generator }) refl tt refl

new_name_found_example :
    (t : Text) × (new_name (codes "historySetting" ∷ codes "historySetting_0" ∷ []) ≡ some t)
    × (contains (codes "historySetting" ∷ codes "historySetting_0" ∷ []) t ≡ false)
new_name_found_example = new_name_found (codes "historySetting" ∷ codes "historySetting_0" ∷ [])

second :
    new_name (codes "historySetting" ∷ codes "historySetting_0" ∷ [])
    ≡ some (codes "historySetting_1")
unfolding new_name
second = refl

save_file-Outcome_example :
    Outcome tree
      (is_none generator.output_file)
      (is_none generator.config.application_name)
      (err input_error)
      none
      generator
      (save_file tree (err input_error) none generator false)
save_file-Outcome_example = save_file-Outcome tree (err input_error) none generator false tt
