-- ===== src/Form/View/Rows.antt =====
-- `_createVariableNode`, `_createDirectoryNode`, `_setupRow`, `_getCheckBox` and `_getComboBox`.
use control_system_adapter_o.Prelude.{
  Bool, true, false, Option, none, some, List, [], ◌∷◌, ◌++◌, if◌then◌else◌,
}
use control_system_adapter_o.Prelude.Text.{Text, codes, text_of, is_in}
use control_system_adapter_o.Prelude.Result.{Result, ok, err, type_error, ◌>>=◌}
use control_system_adapter_o.Variable.{XmlVar, is_set}
use control_system_adapter_o.Directory as Model
use control_system_adapter_o.Directory.{DirectoryInfo, XmlDirectory, directory, is_found}
use control_system_adapter_o.Form.Qt.{Qt}
use control_system_adapter_o.Form.View.{Row, ViewDirectory, folder, ViewDirectories, nil, cons}

-- `"{} (Orig.: {})".format(new, old)`
abbrev pub with_original : Text → Text → Text
with_original new old = new ++ (codes " (Orig.: " ++ (old ++ codes ")"))

-- `str(o)` of a text that may be `None`
abbrev pub printed : Option Text → Text
printed none = codes "None"
printed (some t) = t

abbrev pub changed_text : Option Text → Option Text → Option Text
changed_text none old = old
changed_text (some new) old = some (with_original new (printed old))

abbrev pub input_direction : Text
input_direction = codes "control_system_to_application"

abbrev pub no_history : Text
no_history = codes "No history"

module _ (Q : Qt) where
  unfoldable pub get_check_box : Option Bool → Q.CheckBox
  get_check_box exclude =
      if is_set exclude then Q.set_checked Q.new_check_box true else Q.new_check_box

  unfoldable pub get_combo_box : Q.ComboBox
  get_combo_box = Q.add_item Q.new_combo_box no_history

  -- `'control_system_to_application' in None` is a `TypeError`.
  unfoldable pub new_variable_row : XmlVar → Result (Row Q)
  unfolding get_check_box get_combo_box is_in
  new_variable_row v = elim v.direction [
    | none ↦ err type_error
    | some direction ↦ ok (record {
      name = text_of (changed_text v.new_name (some v.name));
      unit = text_of (changed_text v.new_unit v.unit);
      description = text_of (changed_text v.new_description v.description);
      destination = text_of v.new_destination;
      name_red = is_found v.new_name;
      unit_red = is_found v.new_unit;
      description_red = is_found v.new_description;
      destination_red = is_found v.new_destination;
      is_input = is_in input_direction direction;
      is_expanded = false;
      exclude = get_check_box v.exclude;
      history = get_combo_box;
      history_enabled = true;
    })
  ]

  abbrev pub added_description : Option Text → Text
  added_description none = []
  added_description (some t) = t ++ codes " (Added descr.)"

  unfoldable pub new_directory_row : DirectoryInfo → Bool → Row Q
  unfolding get_check_box get_combo_box
  new_directory_row i is_root = record {
    name = text_of (changed_text i.new_name (some i.name));
    unit = [];
    description = added_description i.new_description;
    destination = text_of i.new_destination;
    name_red = is_found i.new_name;
    unit_red = false;
    description_red = is_found i.new_description;
    destination_red = is_found i.new_destination;
    is_input = false;
    is_expanded = is_root;
    exclude = get_check_box i.exclude;
    history = get_combo_box;
    history_enabled = true;
  }

  unfoldable pub create_variable_nodes : List XmlVar → Result (List (Row Q × XmlVar))
  unfolding new_variable_row
  create_variable_nodes [] = ok []
  create_variable_nodes (v ∷ vs) = do
    r ← new_variable_row v
    rest ← create_variable_nodes vs
    ok ((r, v) ∷ rest)

  unfoldable mutual
    unfolding new_directory_row create_variable_nodes

    pub create_directory_node : XmlDirectory → Bool → Result (ViewDirectory Q)
    create_directory_node (directory i ds vs) is_root = do
      below ← create_all ds
      variables ← create_variable_nodes vs
      ok (folder (new_directory_row i is_root) i below variables)

    pub create_all : Model.Directories → Result (ViewDirectories Q)
    create_all Model.nil = ok nil
    create_all (Model.cons d ds) = do
      first ← create_directory_node d false
      rest ← create_all ds
      ok (cons first rest)
