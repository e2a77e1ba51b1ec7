-- ===== src/Form/Window.antt =====
-- `MapGeneratorForm`: the state of the main window, and the handlers of the configuration fields.
-- Message boxes, the status bar and sizes are left out; so are the fields' colours.
pub mod Settings
pub mod Files
pub mod Histories
pub mod Dialogs
pub mod NewName
pub mod Synced
pub mod Saving
pub mod Events
pub mod Consistent
use control_system_adapter_o.Prelude.{Bool, true, false, Option, none, some, if◌then◌else◌}
use control_system_adapter_o.Prelude.Text.{Text}
use control_system_adapter_o.Prelude.Number.{ℤ}
use control_system_adapter_o.Config.{Config}
use control_system_adapter_o.Generator.{MapGenerator}
use control_system_adapter_o.Form.Qt.{Qt}
use control_system_adapter_o.Form.View.{ViewDirectory}

module _ (Q : Qt) where
  pub record Fields : Type 0 where
    pub user_name : Q.LineEdit
    pub password : Q.LineEdit
    pub application_name : Q.LineEdit
    pub root_folder : Q.LineEdit
    pub application_description : Q.LineEdit
    pub port : Q.SpinBox
    pub log_level : Q.ComboBox
    pub use_bool_as_void : Q.CheckBox
    pub enable_login : Q.CheckBox
    pub enable_encryption : Q.CheckBox
    pub login_enabled : Bool
    pub configure_encryption_enabled : Bool

  -- The generator, the fields, the tree and the list of history settings. `None` as the generator is
  -- the state before a file is opened.
  pub record Window : Type 0 where
    pub generator : Option MapGenerator
    pub fields : Fields
    pub tree : Option (ViewDirectory Q)
    pub histories : Q.ComboBox
    pub histories_enabled : Bool
    pub save_enabled : Bool

  -- `_blockAndSetTextBox`, `_bockAndSetValue` and `_blockAndSetCheckbox`: the signals are blocked.
  abbrev pub set_text_box : Option Text → Q.LineEdit → Q.LineEdit
  set_text_box none w = w
  set_text_box (some t) w = Q.set_text w t

  abbrev pub set_spin_box : Option ℤ → Q.SpinBox → Q.SpinBox
  set_spin_box none w = w
  set_spin_box (some z) w = Q.set_value w z

  -- `_fillConfig`. The field of the root folder is never `None`, so the root folder is shown in it.
  unfoldable pub fill_config : Config → Fields → Fields
  fill_config c f = record f {
    enable_encryption = Q.set_checked f.enable_encryption c.encryption_enabled;
    enable_login = Q.set_checked f.enable_login c.enable_login;
    configure_encryption_enabled = c.encryption_enabled;
    login_enabled = c.enable_login;
    user_name = set_text_box c.username f.user_name;
    password = set_text_box c.password f.password;
    use_bool_as_void = Q.set_checked f.use_bool_as_void c.use_bool_as_void;
    application_name = set_text_box c.application_name f.application_name;
    application_description = Q.set_text f.application_description c.application_description;
    port = set_spin_box c.port f.port;
    root_folder = set_text_box c.root_folder f.root_folder;
    log_level = Q.set_current_text f.log_level c.log_level;
  }

  unfoldable pub update_config : Fields → Config → Config
  update_config f c = record c {
    username = some (Q.text f.user_name);
    password = some (Q.text f.password);
    application_name = some (Q.text f.application_name);
    root_folder = some (Q.text f.root_folder);
    application_description = Q.text f.application_description;
    port = some (Q.value f.port);
    log_level = Q.current_text f.log_level;
    use_bool_as_void = Q.is_checked f.use_bool_as_void;
  }

  -- `enableLogin(state)`, on the fields and on the settings
  unfoldable pub enable_login : Bool → Fields → Config → Fields × Config
  enable_login b f c = (record f { login_enabled = b }, record c { enable_login = b })

  unfoldable pub update_encryption_configuration : Fields → Config → Fields × Config
  update_encryption_configuration f c = (
    record f { configure_encryption_enabled = Q.is_checked f.enable_encryption },
    record c {
      encryption = record c.encryption { encryption_enabled = Q.is_checked f.enable_encryption };
    },
  )
