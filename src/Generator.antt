-- ===== src/Generator.antt =====
-- `MapGenerator` of tools/mapfileGenerator/ctk_opcua_generator_tools/generatorClass.py: the object that
-- holds the settings and the variable tree.
pub mod Chimera
pub mod Folder
pub mod MapFile
pub mod Place
pub mod SaveLoad
pub mod Exclude
pub mod Kept
pub mod Laws
use control_system_adapter_o.Prelude.{ℕ, Option, none, some}
use control_system_adapter_o.Prelude.Text.{Text}
use control_system_adapter_o.Etree.{Nsmap}
use control_system_adapter_o.Config.{Config, new_config}
use control_system_adapter_o.Directory.{XmlDirectory}

-- `MapGenerator` extends `Config`; its constructor clears the application name, which is clear already.
pub record MapGenerator : Type 0 where
  pub config : Config
  pub input_file : Option Text
  pub output_file : Option Text
  pub nsmap : Option Nsmap
  pub dir : Option XmlDirectory

-- The object before an input file is parsed
abbrev pub blank : Option Text → MapGenerator
blank input = record {
  config = new_config;
  input_file = input;
  output_file = none;
  nsmap = none;
  dir = none;
}
