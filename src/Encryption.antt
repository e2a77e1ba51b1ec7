-- ===== src/Encryption.antt =====
-- `EncryptionSettings` of tools/mapfileGenerator/ctk_opcua_generator_tools/generatorClass.py
pub mod Laws
use control_system_adapter_o.Prelude.{Bool, true, false, ◌||◌, Option, none, some, if◌then◌else◌}
use control_system_adapter_o.Prelude.Text.{Text, codes, opt_eq, is_none}
use control_system_adapter_o.Prelude.Result.{Result, ok, err, runtime_error, opt_or_old}
use control_system_adapter_o.Etree.{Etree}
use control_system_adapter_o.Etree.Build.{set_given}
use control_system_adapter_o.History.{flag_text}

pub record EncryptionSettings : Type 0 where
  pub allow_any_certificate : Bool
  pub encryption_enabled : Bool
  pub add_unsecure_endpoint : Bool
  pub certificate : Option Text
  pub key : Option Text
  pub block_list : Option Text
  pub trust_list : Option Text
  pub issuer_list : Option Text

-- `EncryptionSettings()`
abbrev pub new_encryption : EncryptionSettings
new_encryption = record {
  allow_any_certificate = false;
  encryption_enabled = false;
  add_unsecure_endpoint = false;
  certificate = none;
  key = none;
  block_list = none;
  trust_list = none;
  issuer_list = none;
}

unfoldable pub check_encryption_settings : EncryptionSettings → Result (Unit {0})
check_encryption_settings s =
    if is_none s.key
    then err (runtime_error "Server key not set.")
    else if is_none s.certificate
    then err (runtime_error "Server certificate not set.")
    else if is_none s.trust_list || (is_none s.issuer_list || is_none s.block_list)
    then err (runtime_error "No trust list or CA related configuration set.")
    else ok tt

-- `key in attrib and attrib[key] == 'True'`
abbrev pub is_true : Option Text → Bool
is_true o = opt_eq o (some (codes "True"))

module _ (L : Etree) where
  unfoldable pub create_encryption : EncryptionSettings → L.Element → L.Element
  create_encryption s e =
      let e1 = L.set e "unsecure" (flag_text s.add_unsecure_endpoint) in
      let e2 = L.set e1 "allowAnyCertificate" (flag_text s.allow_any_certificate) in
      let e3 = set_given L e2 "privatekey" s.key in
      let e4 = set_given L e3 "certificate" s.certificate in
      let e5 = set_given L e4 "trustlist" s.trust_list in
      let e6 = set_given L e5 "issuerlist" s.issuer_list in set_given L e6 "blocklist" s.block_list

  -- What the element does not give is left as it was.
  unfoldable pub read_encryption : L.Element → EncryptionSettings → EncryptionSettings
  read_encryption e s = record s {
    add_unsecure_endpoint =
        if is_true (L.attrib e "unsecure") then true else s.add_unsecure_endpoint;
    allow_any_certificate =
        if is_true (L.attrib e "allowAnyCertificate") then true else s.allow_any_certificate;
    key = opt_or_old (L.attrib e "privatekey") s.key;
    certificate = opt_or_old (L.attrib e "certificate") s.certificate;
    trust_list = opt_or_old (L.attrib e "trustlist") s.trust_list;
    issuer_list = opt_or_old (L.attrib e "issuerlist") s.issuer_list;
    block_list = opt_or_old (L.attrib e "blocklist") s.block_list;
  }
