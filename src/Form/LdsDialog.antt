-- ===== src/Form/LdsDialog.antt =====
-- `LDSSettingsDialog`: the fields of the dialog, and the configuration that its handler changes.
pub mod Laws
use control_system_adapter_o.Prelude.{
  Bool, true, false, not, Option, none, some, List, [], ◌∷◌, if◌then◌else◌,
}
use control_system_adapter_o.Prelude.Text.{Text, text_of, text_eq}
use control_system_adapter_o.Prelude.Number.{ℤ}
use control_system_adapter_o.Config.{Config}
use control_system_adapter_o.Form.Qt.{Qt}

module _ (Q : Qt) where
  pub record Fields : Type 0 where
    pub lds_address : Q.LineEdit
    pub lds_registry_name : Q.LineEdit
    pub register_lds : Q.CheckBox
    pub lds_register_period : Q.SpinBox

  pub record Dialog : Type 0 where
    pub config : Config
    pub fields : Fields

  -- `LDSSettingsDialog(data)`; a text field shows `None` as the empty text. The signals are connected
  -- behind the calls, so the configuration stays as it is.
  unfoldable pub new_dialog : Fields → Config → Dialog
  new_dialog ui c = record {
    config = c;
    fields = record {
      lds_address = Q.set_text ui.lds_address (text_of c.lds_address);
      lds_registry_name = Q.set_text ui.lds_registry_name (text_of c.lds_registry_name);
      register_lds = Q.set_checked ui.register_lds c.register_lds;
      lds_register_period = Q.set_value ui.lds_register_period c.lds_register_period;
    };
  }

  unfoldable pub update_data : Dialog → Dialog
  update_data d = record d {
    config = record d.config {
      lds_address = some (Q.text d.fields.lds_address);
      lds_registry_name = some (Q.text d.fields.lds_registry_name);
      register_lds = Q.is_checked d.fields.register_lds;
      lds_register_period = Q.value d.fields.lds_register_period;
    };
  }

-- What the user does to the fields; each action changes the value of the field.
pub data Action : Type 0 where
  edit_address edit_registry_name : Text → Action
  toggle_register : Action
  edit_period : ℤ → Action

module _ (Q : Qt) where
  -- Each change of a field calls the handler.
  unfoldable pub act : Action → Dialog Q → Dialog Q
  unfolding update_data
  act (edit_address t) d =
      update_data Q
        (record d { fields = record d.fields { lds_address = Q.set_text d.fields.lds_address t } })
  act (edit_registry_name t) d = update_data Q (record d {
    fields = record d.fields { lds_registry_name = Q.set_text d.fields.lds_registry_name t };
  })
  act toggle_register d = update_data Q (record d {
    fields = record d.fields {
      register_lds = Q.set_checked d.fields.register_lds (not (Q.is_checked d.fields.register_lds));
    };
  })
  act (edit_period z) d = update_data Q (record d {
    fields = record d.fields { lds_register_period = Q.set_value d.fields.lds_register_period z };
  })

  unfoldable pub act_all : List Action → Dialog Q → Dialog Q
  unfolding act
  act_all [] d = d
  act_all (a ∷ actions) d = act_all actions (act a d)
