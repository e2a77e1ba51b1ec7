-- ===== src/Variable.antt =====
-- `XMLVar` (with `MapOption`) of tools/mapfileGenerator/ctk_opcua_generator_tools/generatorClass.py.
-- The `element` that the code keeps and never reads is left out.
pub mod Write
pub mod Read
pub mod RoundTrip
use control_system_adapter_o.Prelude.{
  String, Bool, true, false, not, ◌&&◌, ◌||◌, Option, none, some, List, ◌++◌, if◌then◌else◌,
}
use control_system_adapter_o.Prelude.Text.{Text, codes, text_eq, given}
use control_system_adapter_o.Prelude.Number.{ℤ, int}
use control_system_adapter_o.Prelude.Result.{
  Result, ok, err, key_error, attribute_error, type_error, value_error, require, ◌>>=◌,
}
use control_system_adapter_o.Etree.{Etree}

pub record XmlVar : Type 0 where
  pub exclude : Option Bool
  pub historizing : Option Text
  pub name : Text
  pub new_name : Option Text
  pub value_type : Option Text
  pub number_of_elements : ℤ
  pub unit : Option Text
  pub new_unit : Option Text
  pub direction : Option Text
  pub description : Option Text
  pub new_description : Option Text
  pub new_destination : Option Text
  pub full_name : Text

-- `int(text)` of a text that may be `None`
unfoldable pub int_of : Option Text → Result ℤ
int_of none = err type_error
int_of (some t) = require value_error (int t)

module _ (L : Etree) where
  -- `e.find(tag, namespaces=e.nsmap).text`
  unfoldable pub child_text : L.Element → String → Result (Option Text)
  child_text e t = do child ← require attribute_error (L.find e t (L.nsmap e)); ok (L.text child)

  -- `XMLVar(var, path)`
  unfoldable pub new_var : L.Element → Text → Result XmlVar
  unfolding child_text int_of
  new_var e path = do
    name ← require key_error (L.attrib e "name")
    value_type ← child_text e "value_type"
    elements ← child_text e "numberOfElements"
    number_of_elements ← int_of elements
    unit ← child_text e "unit"
    direction ← child_text e "direction"
    description ← child_text e "description"
    ok (record {
      exclude = none;
      historizing = none;
      name = name;
      new_name = none;
      value_type = value_type;
      number_of_elements = number_of_elements;
      unit = unit;
      new_unit = none;
      direction = direction;
      description = description;
      new_description = none;
      new_destination = none;
      full_name = path ++ (codes "/" ++ name);
    })

-- `v == t` for a text
unfoldable pub var_eq : XmlVar → Text → Bool
var_eq v t = text_eq t v.full_name

unfoldable pub reset_var : XmlVar → XmlVar
reset_var v = record v {
  new_name = none;
  new_unit = none;
  new_description = none;
  new_destination = none;
}

-- Truth of a flag that may be `None`.
abbrev pub is_set : Option Bool → Bool
is_set none = false
is_set (some b) = b
