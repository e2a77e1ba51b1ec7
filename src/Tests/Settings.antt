-- ===== src/Tests/Settings.antt =====
-- Runs of the settings part: `Config`, `EncryptionSettings` and `HistorySetting`.
use control_system_adapter_o.Prelude.{◌≡◌, refl, true, none, some, [], ◌∷◌}
use control_system_adapter_o.Prelude.Text.{codes}
use control_system_adapter_o.Prelude.Number.{pos}
use control_system_adapter_o.Prelude.Result.{ok, err, done, runtime_error, ◌▷◌}
use control_system_adapter_o.Etree.Build.{append_if}
use control_system_adapter_o.Etree.Tree.{select, Node, tree}
use control_system_adapter_o.History.{HistorySetting, new_setting, influx_db}
use control_system_adapter_o.Encryption.{
  check_encryption_settings, EncryptionSettings, new_encryption, read_encryption, create_encryption,
}
use control_system_adapter_o.Encryption.Laws.{storable, read_encryption-create_encryption}
use control_system_adapter_o.Config.{Config, new_config}
use control_system_adapter_o.Config.Write.{
  add_lds, add_login, add_security, add_historizing, config_element, add_void, create_config,
  add_setups,
}
use control_system_adapter_o.Config.Read.{read_config, read_setups}
use control_system_adapter_o.Config.Check.{
  check, full_config, requirements, first_missing, exception_of, create_config-first_missing,
}
use control_system_adapter_o.Config.Setups.{merged, read_setups-firsts}
use control_system_adapter_o.Config.RoundTrip.{restored, read_config-create_config}
use control_system_adapter_o.Generator.MapFile.{csa_nsmap}

abbrev root : Node
root = tree.element "uamapping" csa_nsmap

abbrev slow : HistorySetting
slow = record (new_setting (codes "slow")) { buffer_length = pos 7; interval = pos 60000 }

abbrev influx : HistorySetting
influx = record (new_setting (codes "influx")) { backend_type = influx_db; buffer_length = pos 7 }

abbrev keys : EncryptionSettings
keys = record new_encryption {
  key = some (codes "k.der");
  certificate = some (codes "c.der");
  trust_list = some (codes "t");
  issuer_list = some (codes "i");
  block_list = some [];
}

abbrev settings : Config
settings = record new_config {
  root_folder = some (codes "lab");
  application_description = codes "A test stand";
  port = some (pos 11000);
  enable_login = true;
  username = some (codes "user");
  password = some (codes "secret");
  history_settings = slow ∷ influx ∷ slow ∷ [];
  encryption = record keys { encryption_enabled = true };
}

abbrev built : Node
built = tree.append root (full_config tree settings root)

checked : check settings ≡ ok tt
unfolding check check_encryption_settings
checked = refl

created : create_config tree settings root ≡ ok built
unfolding create_config full_config add_lds add_login add_security check_encryption_settings
    add_historizing append_if config_element add_void
created = refl

no_user :
    create_config tree (record settings { username = none }) root
    ≡ err (runtime_error "No username set!")
unfolding create_config add_lds add_login
no_user = refl

read_config-create_config_example : read_config tree built new_config ≡ done (restored settings)
unfolding select
read_config-create_config_example =
    read_config-create_config tree settings root built refl refl created

create_config-first_missing_example :
    exception_of (create_config tree settings root) ≡ first_missing (requirements settings)
create_config-first_missing_example = create_config-first_missing tree settings root

read_setups-firsts_example :
    read_setups tree
      (tree.findall
        (add_setups tree (slow ∷ influx ∷ slow ∷ []) (tree.sub_element root "historizing"))
        "setup"
        csa_nsmap)
      new_config
    ≡ (read_setups tree
          (tree.findall (tree.sub_element root "historizing") "setup" csa_nsmap)
          new_config
        ▷ (λ c. done (record c {
          history_settings = merged (slow ∷ influx ∷ slow ∷ []) c.history_settings;
        })))
read_setups-firsts_example =
    read_setups-firsts tree (slow ∷ influx ∷ slow ∷ []) (tree.sub_element root "historizing")
      csa_nsmap refl new_config

read_encryption-create_encryption_example :
    read_encryption tree
      (create_encryption tree keys (tree.sub_element root "security"))
      (record new_encryption { encryption_enabled = true })
    ≡ record (storable keys) { encryption_enabled = true }
read_encryption-create_encryption_example =
    read_encryption-create_encryption tree root "security" keys true
