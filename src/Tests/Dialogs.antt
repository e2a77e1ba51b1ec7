-- ===== src/Tests/Dialogs.antt =====
-- Runs of the dialogs of the generator's windows.
use control_system_adapter_o.Prelude.{
  ◌≡◌, refl, true, false, none, some, List, [], ◌∷◌, arith, ==_iff,
}
use control_system_adapter_o.Prelude.Text.{codes}
use control_system_adapter_o.Prelude.Number.{pos}
use control_system_adapter_o.History.{new_setting, influx_db}
use control_system_adapter_o.Encryption.{new_encryption}
use control_system_adapter_o.Config.{Config, new_config}
use control_system_adapter_o.Form.Qt.Plain.{plain}
use control_system_adapter_o.Form.EncryptionDialog as Encryption
use control_system_adapter_o.Form.EncryptionDialog.Laws as EncryptionLaws
use control_system_adapter_o.Form.EncryptionDialog.Laws.{settings-act_all}
use control_system_adapter_o.Form.LdsDialog as Lds
use control_system_adapter_o.Form.LdsDialog.Laws as LdsLaws
use control_system_adapter_o.Form.LdsDialog.Laws.{config-act_all, period-act_all}
use control_system_adapter_o.Form.HistoryDialog as History
use control_system_adapter_o.Form.HistoryDialog.Laws.{HasUnique, act_all-HasUnique}

abbrev encryption_fields : Encryption.Fields plain
encryption_fields = record {
  user_cert = [];
  private_key = [];
  trust_list = [];
  block_list = [];
  issuer_list = [];
  add_unsecure_endpoint = true;
  allow_any_certificate = false;
}

abbrev encryption_actions : List Encryption.Action
encryption_actions =
    Encryption.set_user_cert (some (codes "c.der"))
    ∷ Encryption.toggle_unsecure
    ∷ Encryption.set_trust_list none
    ∷ Encryption.set_block_list (some (codes "b"))
    ∷ []

settings-act_all_example :
    ((Encryption.act_all plain encryption_actions
        (Encryption.new_dialog plain encryption_fields new_encryption)).settings
      ≡ EncryptionLaws.apply_all encryption_actions new_encryption)
    × EncryptionLaws.Agrees plain (
        Encryption.act_all plain encryption_actions
          (Encryption.new_dialog plain encryption_fields new_encryption))
settings-act_all_example =
    settings-act_all plain encryption_fields new_encryption encryption_actions

applied : EncryptionLaws.apply_all encryption_actions new_encryption ≡ record new_encryption {
  certificate = some (codes "c.der");
  add_unsecure_endpoint = true;
  block_list = some (codes "b");
}
unfolding EncryptionLaws.apply_all
applied = refl

abbrev lds_fields : Lds.Fields plain
lds_fields = record {
  lds_address = [];
  lds_registry_name = [];
  register_lds = false;
  lds_register_period = record { high = 99; raw = pos 0 };
}

abbrev lds_actions : List Lds.Action
lds_actions =
    Lds.edit_address (codes "opc.tcp://lds") ∷ Lds.toggle_register ∷ Lds.edit_period (pos 20) ∷ []

config-act_all_example :
    (Lds.act_all plain lds_actions (Lds.new_dialog plain lds_fields new_config)).config
    ≡ LdsLaws.apply_all lds_actions new_config
config-act_all_example =
    config-act_all plain lds_fields new_config lds_actions refl (tt, (tt, (refl, tt)))

abbrev history_fields : History.Fields plain
history_fields = record {
  history_name = [];
  entries_per_response = record { high = 100000; raw = pos 1 };
  buffer_length = record { high = 1000000000; raw = pos 2 };
  sampling_interval = record { high = 600000; raw = pos 0 };
  backend = record {
    entries = codes "circular buffer" ∷ influx_db ∷ [];
    current = codes "circular buffer";
    object = none;
  };
  buffer_length_enabled = true;
  ok_enabled = true;
}

abbrev store : History.Store
store n = new_setting (codes "slow")

abbrev dialog : History.Dialog plain
dialog =
    History.new_dialog plain history_fields store 0
      (record { entries = codes "slow" ∷ []; current = codes "slow"; object = some 0 }) (0 ∷ [])
      true

abbrev history_actions : List History.Action
history_actions = History.enter_name (codes "fast") ∷ History.edit_interval (pos 10) ∷ []

act_all-HasUnique_example : HasUnique plain (History.act_all plain history_actions dialog)
unfolding History.new_dialog
act_all-HasUnique_example =
    act_all-HasUnique plain history_actions dialog
      λ a b ha hb e. ground (arith, ==_iff 0 a, ==_iff 0 b)

renamed :
    (History.act_all plain history_actions dialog).store 0
    ≡ record (new_setting (codes "fast")) { interval = pos 10 }
unfolding History.act_all History.new_dialog
renamed = refl

abbrev rare : Config
rare = record new_config { lds_register_period = pos 120 }

period-act_all_example :
    plain.fits lds_fields.lds_register_period
      (Lds.act_all plain
        (Lds.edit_address (codes "a") ∷ [])
        (Lds.new_dialog plain lds_fields rare)).config.lds_register_period
    ≡ true
period-act_all_example = period-act_all plain lds_fields rare (Lds.edit_address (codes "a")) []
