-- ===== src/Form/EncryptionDialog.antt =====
-- `EncryptionDialog`: the fields of the dialog, and the settings object that its handlers change.
pub mod Laws
use control_system_adapter_o.Prelude.{
  Bool, true, false, not, Option, none, some, List, [], ◌∷◌, if◌then◌else◌,
}
use control_system_adapter_o.Prelude.Text.{Text, given, text_of}
use control_system_adapter_o.Encryption.{EncryptionSettings}
use control_system_adapter_o.Form.Qt.{Qt}

module _ (Q : Qt) where
  pub record Fields : Type 0 where
    pub user_cert : Q.LineEdit
    pub private_key : Q.LineEdit
    pub trust_list : Q.LineEdit
    pub block_list : Q.LineEdit
    pub issuer_list : Q.LineEdit
    pub add_unsecure_endpoint : Q.CheckBox
    pub allow_any_certificate : Q.CheckBox

  pub record Dialog : Type 0 where
    pub settings : EncryptionSettings
    pub fields : Fields

  -- `if value: field.setText(value)`
  abbrev pub show_given : Q.LineEdit → Option Text → Q.LineEdit
  show_given w o = if given o then Q.set_text w (text_of o) else w

  -- `EncryptionDialog(data)`, with the fields that `setupUi` makes
  unfoldable pub new_dialog : Fields → EncryptionSettings → Dialog
  new_dialog ui s = record {
    settings = s;
    fields = record {
      user_cert = show_given ui.user_cert s.certificate;
      private_key = show_given ui.private_key s.key;
      trust_list = show_given ui.trust_list s.trust_list;
      block_list = show_given ui.block_list s.block_list;
      issuer_list = show_given ui.issuer_list s.issuer_list;
      add_unsecure_endpoint = Q.set_checked ui.add_unsecure_endpoint s.add_unsecure_endpoint;
      allow_any_certificate = Q.set_checked ui.allow_any_certificate s.allow_any_certificate;
    };
  }

  -- The argument is what the file dialog gives: no file, if the user cancels.
  unfoldable pub open_user_cert : Option Text → Dialog → Dialog
  open_user_cert none d = d
  open_user_cert (some file) d = record {
    settings = record d.settings { certificate = some file };
    fields = record d.fields { user_cert = Q.set_text d.fields.user_cert file };
  }

  unfoldable pub open_private_key : Option Text → Dialog → Dialog
  open_private_key none d = d
  open_private_key (some file) d = record {
    settings = record d.settings { key = some file };
    fields = record d.fields { private_key = Q.set_text d.fields.private_key file };
  }

  unfoldable pub open_trust_list : Option Text → Dialog → Dialog
  open_trust_list o d =
      if given o
      then record {
        settings = record d.settings { trust_list = some (text_of o) };
        fields = record d.fields { trust_list = Q.set_text d.fields.trust_list (text_of o) };
      }
      else d

  unfoldable pub open_block_list : Option Text → Dialog → Dialog
  open_block_list o d =
      if given o
      then record {
        settings = record d.settings { block_list = some (text_of o) };
        fields = record d.fields { block_list = Q.set_text d.fields.block_list (text_of o) };
      }
      else d

  unfoldable pub open_issuer_list : Option Text → Dialog → Dialog
  open_issuer_list o d =
      if given o
      then record {
        settings = record d.settings { issuer_list = some (text_of o) };
        fields = record d.fields { issuer_list = Q.set_text d.fields.issuer_list (text_of o) };
      }
      else d

  unfoldable pub update_encryption_configuration : Dialog → Dialog
  update_encryption_configuration d = record d {
    settings = record d.settings {
      add_unsecure_endpoint = Q.is_checked d.fields.add_unsecure_endpoint;
      allow_any_certificate = Q.is_checked d.fields.allow_any_certificate;
    };
  }

-- What the user does; the signals that `__init__` connects call the handlers.
pub data Action : Type 0 where
  set_user_cert set_private_key set_trust_list set_block_list set_issuer_list : Option Text → Action
  toggle_unsecure toggle_any_certificate : Action

module _ (Q : Qt) where
  abbrev pub toggled : Q.CheckBox → Q.CheckBox
  toggled w = Q.set_checked w (not (Q.is_checked w))

  unfoldable pub act : Action → Dialog Q → Dialog Q
  unfolding open_user_cert open_private_key open_trust_list open_block_list open_issuer_list
      update_encryption_configuration
  act (set_user_cert o) d = open_user_cert Q o d
  act (set_private_key o) d = open_private_key Q o d
  act (set_trust_list o) d = open_trust_list Q o d
  act (set_block_list o) d = open_block_list Q o d
  act (set_issuer_list o) d = open_issuer_list Q o d
  act toggle_unsecure d = update_encryption_configuration Q (record d {
    fields = record d.fields { add_unsecure_endpoint = toggled d.fields.add_unsecure_endpoint };
  })
  act toggle_any_certificate d = update_encryption_configuration Q (record d {
    fields = record d.fields { allow_any_certificate = toggled d.fields.allow_any_certificate };
  })

  unfoldable pub act_all : List Action → Dialog Q → Dialog Q
  unfolding act
  act_all [] d = d
  act_all (a ∷ actions) d = act_all actions (act a d)
