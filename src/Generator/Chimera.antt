-- ===== src/Generator/Chimera.antt =====
-- `MapGenerator.__init__` and `parseChimeraTK`. Opening and parsing the file is a parameter.
use control_system_adapter_o.Prelude.{suc, Bool, true, false, Option, none, some, [], if◌then◌else◌}
use control_system_adapter_o.Prelude.Text.{Text, codes, text_eq, split_second, given, text_of}
use control_system_adapter_o.Prelude.Result.{
  Result, ok, err, Run, done, raised, index_error, runtime_error, opt_or_old, with_value,
}
use control_system_adapter_o.Etree.{Etree}
use control_system_adapter_o.Directory.{XmlDirectory}
use control_system_adapter_o.Directory.Parse.{new_directory}
use control_system_adapter_o.Generator.{MapGenerator, blank}

-- `tag == 'application' or tag.split('}')[1] == 'application'`
unfoldable pub is_application : Text → Result Bool
unfolding text_eq split_second
is_application tag =
    if text_eq tag (codes "application") then ok true else elim (split_second b'}' tag) [
      | none ↦ err index_error
      | some t ↦ ok (text_eq t (codes "application"))
    ]

module _ (L : Etree) (open_file : Text → Result L.Element) where
  -- `XMLDirectory(name='root', data=data, level=0)`, with fuel above the height of the element
  unfoldable pub parse_root : L.Element → Result XmlDirectory
  unfolding new_directory
  parse_root e = new_directory L (suc (L.height e)) (codes "root") e 0 []

  unfoldable pub named : L.Element → MapGenerator → MapGenerator
  named e g = record g {
    config = record g.config {
      application_name = opt_or_old (L.attrib e "name") g.config.application_name;
    };
    nsmap = some (L.nsmap e);
  }

  unfoldable pub parse_tree : Bool → L.Element → MapGenerator → Run MapGenerator
  unfolding parse_root named
  parse_tree false e g =
      raised
        (runtime_error
          "Failed to find application tag. Not an XML file created by ChimeraTK's XML generator.")
        g
  parse_tree true e g =
      with_value (parse_root e) (named e g) (λ d. done (record (named e g) { dir = some d }))

  unfoldable pub parse_chimera_tk : MapGenerator → Run MapGenerator
  unfolding is_application parse_tree
  parse_chimera_tk g =
      with_value (open_file (text_of g.input_file)) g
        (λ e. with_value (is_application (L.tag e)) g (λ b. parse_tree b e g))

  -- `MapGenerator(inputFile)`
  unfoldable pub new_generator : Option Text → Run MapGenerator
  unfolding parse_chimera_tk
  new_generator input = if given input then parse_chimera_tk (blank input) else done (blank input)
