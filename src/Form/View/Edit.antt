-- ===== src/Form/View/Edit.antt =====
-- `_updateItem`: the user has typed a text into a column of an item.
use control_system_adapter_o.Prelude.{
  ◌≡◌, Bool, true, false, Option, none, some, [], ◌++◌, if◌then◌else◌, arith,
}
use control_system_adapter_o.Prelude.Text.{
  Text, codes, text_of, text_eq, opt_eq, is_none, text_eq_iff,
}
use control_system_adapter_o.Variable.{XmlVar}
use control_system_adapter_o.Directory.{DirectoryInfo, is_found}
use control_system_adapter_o.Form.Qt.{Qt}
use control_system_adapter_o.Form.View.{Row}
use control_system_adapter_o.Form.View.Rows.{with_original, changed_text, added_description}

-- The columns that can be edited
pub data Column : Type 0 where
  name unit description destination : Column

-- The value that a column sets: `None` for the text that stands for no change
abbrev pub set_if_not : Bool → Text → Option Text
set_if_not same t = if same then none else some t

module _ (Q : Qt) where
  abbrev pub name_cell : Text → Text → Row Q → Row Q
  name_cell old t r = record r {
    name = if text_eq t old then t else with_original t old;
    name_red = if text_eq t old then false else true;
  }

  abbrev pub description_cell : Text → Row Q → Row Q
  description_cell t r = record r {
    description = if text_eq t [] then t else t ++ codes " (Added descr.)";
    description_red = if text_eq t [] then false else true;
  }

  abbrev pub destination_cell : Text → Row Q → Row Q
  destination_cell t r = record r {
    destination = t;
    destination_red = if text_eq t [] then false else true;
  }

  abbrev pub unit_cell : Option Text → Text → Row Q → Row Q
  unit_cell old t r = record r {
    unit = if opt_eq (some t) old then t else with_original t (text_of old);
    unit_red = if opt_eq (some t) old then false else true;
  }

  unfoldable pub update_variable_item : Column → Text → Row Q × XmlVar → Row Q × XmlVar
  unfolding text_eq opt_eq
  update_variable_item name t (r, v) =
      (name_cell v.name t r, record v { new_name = set_if_not (text_eq t v.name) t })
  update_variable_item unit t (r, v) =
      (unit_cell v.unit t r, record v { new_unit = set_if_not (opt_eq (some t) v.unit) t })
  update_variable_item description t (r, v) =
      (description_cell t r, record v { new_description = set_if_not (text_eq t []) t })
  update_variable_item destination t (r, v) =
      (destination_cell t r, record v { new_destination = set_if_not (text_eq t []) t })

  -- A unit is not taken for a directory: a warning is shown.
  unfoldable pub update_directory_item :
      Column → Text → Row Q × DirectoryInfo → Row Q × DirectoryInfo
  unfolding text_eq
  update_directory_item name t (r, i) =
      (name_cell i.name t r, record i { new_name = set_if_not (text_eq t i.name) t })
  update_directory_item unit t (r, i) = (record r { unit = [] }, i)
  update_directory_item description t (r, i) =
      (description_cell t r, record i { new_description = set_if_not (text_eq t []) t })
  update_directory_item destination t (r, i) =
      (destination_cell t r, record i { new_destination = set_if_not (text_eq t []) t })

  -- `dropEvent`: an item is dropped on a directory, whose path it takes as destination. The item's new
  -- text calls `_updateItem`.
  unfoldable pub drop_variable : Text → Row Q × XmlVar → Row Q × XmlVar
  unfolding update_variable_item
  drop_variable path (r, v) = update_variable_item destination path (
    record r { destination = path; destination_red = true },
    record v { new_destination = some path },
  )

  unfoldable pub drop_directory : Text → Row Q × DirectoryInfo → Row Q × DirectoryInfo
  unfolding update_directory_item
  drop_directory path (r, i) = update_directory_item destination path (
    record r { destination = path; destination_red = true },
    record i { new_destination = some path },
  )

  -- An item shows its object, in the columns and colours that `_createDirectoryNode` gives.
  pub record ShowsDirectory (r : Row Q) (i : DirectoryInfo) : Type 0 where
    pub name : r.name ≡ text_of (changed_text i.new_name (some i.name))
    pub name_red : r.name_red ≡ is_found i.new_name
    pub unit : r.unit ≡ []
    pub description : r.description ≡ added_description Q i.new_description
    pub description_red : r.description_red ≡ is_found i.new_description
    pub destination : r.destination ≡ text_of i.new_destination
    pub destination_red : r.destination_red ≡ is_found i.new_destination

  -- The same for `_createVariableNode`, without the description, which `_updateItem` writes in
  -- another form, and without a unit where the variable has none.
  pub record ShowsVariable (r : Row Q) (v : XmlVar) : Type 0 where
    pub name : r.name ≡ text_of (changed_text v.new_name (some v.name))
    pub name_red : r.name_red ≡ is_found v.new_name
    pub unit : is_none v.unit ≡ false → r.unit ≡ text_of (changed_text v.new_unit v.unit)
    pub unit_red : r.unit_red ≡ is_found v.new_unit
    pub description_red : r.description_red ≡ is_found v.new_description
    pub destination : r.destination ≡ text_of v.new_destination
    pub destination_red : r.destination_red ≡ is_found v.new_destination

  unit_cell-shown :
      (old : Option Text) (t : Text)
      → is_none old ≡ false
      → (if opt_eq (some t) old then t else with_original t (text_of old))
        ≡ text_of (changed_text (set_if_not (opt_eq (some t) old) t) old)
  unfolding opt_eq
  unit_cell-shown none t h = cc
  unit_cell-shown (some u) t h = ground (arith, text_eq_iff t u)

  -- Every edit of a directory's item leaves the item as it would be made anew for the directory.
  pub update_directory_item-ShowsDirectory :
      (c : Column) (t : Text) (r : Row Q) (i : DirectoryInfo)
      → ShowsDirectory r i
      → ShowsDirectory (update_directory_item c t (r, i)).0 (update_directory_item c t (r, i)).1
  unfolding update_directory_item
  update_directory_item-ShowsDirectory name t r i h = ground (arith, text_eq_iff t i.name)
  update_directory_item-ShowsDirectory unit t r i h = ground arith
  update_directory_item-ShowsDirectory description t r i h = ground (arith, text_eq_iff t [])
  update_directory_item-ShowsDirectory destination t r i h = ground (arith, text_eq_iff t [])

  -- If the name, the destination, the colours and, for a variable with a unit, the unit of an item are
  -- as in an item that is made anew for the variable, they are so again after every edit of the item,
  -- for the variable as the edit leaves it.
  pub update_variable_item-ShowsVariable :
      (c : Column) (t : Text) (r : Row Q) (v : XmlVar)
      → ShowsVariable r v
      → ShowsVariable (update_variable_item c t (r, v)).0 (update_variable_item c t (r, v)).1
  unfolding update_variable_item
  update_variable_item-ShowsVariable name t r v h = ground (arith, text_eq_iff t v.name)
  update_variable_item-ShowsVariable unit t r v h = ground (arith, unit_cell-shown v.unit t)
  update_variable_item-ShowsVariable description t r v h = ground (arith, text_eq_iff t [])
  update_variable_item-ShowsVariable destination t r v h = ground (arith, text_eq_iff t [])
