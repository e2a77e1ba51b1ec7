-- ===== src/Config.antt =====
-- `Config` of tools/mapfileGenerator/ctk_opcua_generator_tools/generatorClass.py: the server settings
-- and their section of the map file.
pub mod Write
pub mod Read
pub mod Check
pub mod Sections
pub mod Setups
pub mod Find
pub mod RoundTrip
use control_system_adapter_o.Prelude.{Bool, false, Option, none, List, []}
use control_system_adapter_o.Prelude.Text.{Text, codes}
use control_system_adapter_o.Prelude.Number.{ℤ, pos}
use control_system_adapter_o.History.{HistorySetting}
use control_system_adapter_o.Encryption.{EncryptionSettings, new_encryption}

-- `Config` extends `EncryptionSettings`.
pub record Config : Type 0 where
  pub encryption : EncryptionSettings
  pub open encryption use *
  pub username : Option Text
  pub password : Option Text
  pub application_name : Option Text
  pub root_folder : Option Text
  pub application_description : Text
  pub enable_login : Bool
  pub port : Option ℤ
  pub history_settings : List HistorySetting
  pub log_level : Text
  pub use_bool_as_void : Bool
  pub register_lds : Bool
  pub lds_address : Option Text
  pub lds_registry_name : Option Text
  pub lds_register_period : ℤ

-- `Config()`
abbrev pub new_config : Config
new_config = record {
  encryption = new_encryption;
  username = none;
  password = none;
  application_name = none;
  root_folder = none;
  application_description = [];
  enable_login = false;
  port = none;
  history_settings = [];
  log_level = codes "INFO";
  use_bool_as_void = false;
  register_lds = false;
  lds_address = none;
  lds_registry_name = none;
  lds_register_period = pos 10;
}
