-- ===== src/Variable/Write.antt =====
-- `XMLVar.generateMapEntry`
use control_system_adapter_o.Prelude.{
  String, Bool, not, ◌&&◌, ◌||◌, Option, some, ◌++◌, if◌then◌else◌,
}
use control_system_adapter_o.Prelude.Text.{Text, codes, text_eq, given, text_of, remove_prefix}
use control_system_adapter_o.Etree.{Etree}
use control_system_adapter_o.Etree.Build.{set_if, append_if}
use control_system_adapter_o.Variable.{XmlVar, is_set}

abbrev pub root_slash : Text
root_slash = codes "/root/"

module _ (L : Etree) where
  -- `child = ET.SubElement(e, tag); child.text = text`
  unfoldable pub text_child : L.Element → String → Text → L.Element
  text_child e t text = L.append e (L.set_text (L.sub_element e t) (some text))

  -- The same under `if text:`
  unfoldable pub given_child : L.Element → String → Option Text → L.Element
  unfolding text_child
  given_child e t o = if given o then text_child e t (text_of o) else e

module _ (L : Etree) (v : XmlVar) (historizing_active : Bool) where
  abbrev pub writes_history : Bool
  writes_history = given v.historizing && not historizing_active

  abbrev pub has_entry : Bool
  has_entry =
      given v.new_name
      || given v.new_description
      || given v.new_unit
      || given v.new_destination
      || writes_history

  unfoldable pub var_source : Text → Text
  unfolding text_eq remove_prefix
  var_source path =
      if text_eq (remove_prefix root_slash path) (codes "")
      then v.name
      else remove_prefix root_slash path ++ (codes "/" ++ v.name)

  -- A variable that is moved to the root has an empty destination, and its name if no other is given.
  unfoldable pub var_destination : L.Element → L.Element
  unfolding text_eq remove_prefix text_child
  var_destination pv =
      if not (given v.new_destination)
      then pv
      else if text_eq (text_of v.new_destination) (codes "/root")
      then (let pv1 = L.append pv (L.sub_element pv "destination") in
          if given v.new_name then pv1 else text_child L pv1 "name" v.name)
      else text_child L pv "destination" (remove_prefix root_slash (text_of v.new_destination))

  unfoldable pub var_entry : L.Element → Text → L.Element
  unfolding var_source var_destination given_child set_if
  var_entry root path =
      let e1 = L.set (L.sub_element root "process_variable") "sourceName" (var_source path) in
      let e2 = set_if L writes_history e1 "history" (text_of v.historizing) in
      let e3 = given_child L e2 "description" v.new_description in
      let e4 = given_child L e3 "name" v.new_name in
      let e5 = given_child L e4 "unit" v.new_unit in
      let e6 = var_destination e5 in
      L.set e6 "copy" (if given v.new_name then codes "True" else codes "False")

  unfoldable pub var_exclude : L.Element → L.Element
  unfolding remove_prefix
  var_exclude root =
      L.set (L.sub_element root "exclude") "sourceName" (remove_prefix root_slash v.full_name)

  unfoldable pub generate_map_entry : L.Element → Text → Bool → L.Element
  generate_map_entry root path exclude_active =
      let root1 = append_if L (is_set v.exclude && not exclude_active) root (var_exclude root) in
      append_if L has_entry root1 (var_entry root1 path)
