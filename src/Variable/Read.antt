-- ===== src/Variable/Read.antt =====
-- The part of `MapGenerator.parseMapFile` that reads a process variable entry into its variable.
use control_system_adapter_o.Prelude.{String, not, ◌&&◌, Option, none, some, if◌then◌else◌}
use control_system_adapter_o.Prelude.Text.{Text, codes, opt_eq, given}
use control_system_adapter_o.Prelude.Result.{opt_or_old}
use control_system_adapter_o.Etree.{Etree}
use control_system_adapter_o.Variable.{XmlVar}

-- `o == "" or o == None` is `not given o`.
unfoldable pub settle_root : XmlVar → XmlVar
unfolding opt_eq
settle_root v =
    if not (given v.new_destination) && opt_eq (some v.name) v.new_name
    then record v { new_destination = some (codes "/root"); new_name = none }
    else v

module _ (L : Etree) where
  abbrev pub text_or_old : Option L.Element → Option Text → Option Text
  text_or_old none old = old
  text_or_old (some child) old = L.text child

  -- `if e.find(tag) != None: field = e.find(tag).text`
  unfoldable pub child_or_old : L.Element → String → Option Text → Option Text
  child_or_old e t old = text_or_old (L.find e t (L.nsmap e)) old

  unfoldable pub read_pv : L.Element → XmlVar → XmlVar
  unfolding child_or_old
  read_pv pv v = settle_root (record v {
    historizing = opt_or_old (L.attrib pv "history") v.historizing;
    new_description = child_or_old pv "description" v.new_description;
    new_unit = child_or_old pv "unit" v.new_unit;
    new_name = child_or_old pv "name" v.new_name;
    new_destination = child_or_old pv "destination" v.new_destination;
  })
