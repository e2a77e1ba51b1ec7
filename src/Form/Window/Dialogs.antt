-- ===== src/Form/Window/Dialogs.antt =====
-- `configureEncryption` and `configureLDSSettings`.
use control_system_adapter_o.Prelude.{List}
use control_system_adapter_o.Generator.{MapGenerator}
use control_system_adapter_o.Form.Qt.{Qt}
use control_system_adapter_o.Form.EncryptionDialog as EncryptionDialog
use control_system_adapter_o.Form.LdsDialog as LdsDialog

module _ (Q : Qt) where
  -- The dialog works on the generator itself, which is an `EncryptionSettings`.
  unfoldable pub configure_encryption :
      EncryptionDialog.Fields Q → List EncryptionDialog.Action → MapGenerator → MapGenerator
  unfolding EncryptionDialog.new_dialog EncryptionDialog.act_all
  configure_encryption ui actions g =
      let closed =
        EncryptionDialog.act_all Q actions (EncryptionDialog.new_dialog Q ui g.config.encryption) in
      record g { config = record g.config { encryption = closed.settings } }

  unfoldable pub configure_lds_settings :
      LdsDialog.Fields Q → List LdsDialog.Action → MapGenerator → MapGenerator
  unfolding LdsDialog.new_dialog LdsDialog.act_all
  configure_lds_settings ui actions g =
      let closed = LdsDialog.act_all Q actions (LdsDialog.new_dialog Q ui g.config) in
      record g { config = closed.config }
