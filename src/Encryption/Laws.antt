-- ===== src/Encryption/Laws.antt =====
-- Writing and reading the encryption settings, and when the check raises.
use control_system_adapter_o.Prelude.{
  String, ◌≡◌, refl, if-true-false, ◌↔◌, ◌≢◌, Bool, true, false, none, some, arith,
}
use control_system_adapter_o.Prelude.Text.{opt_eq, kept}
use control_system_adapter_o.Prelude.Result.{ok, opt_or_old-none}
use control_system_adapter_o.Etree.{Etree}
use control_system_adapter_o.Etree.Laws.{etree_laws}
use control_system_adapter_o.Etree.Build.{build_laws, set_given}
use control_system_adapter_o.History.{flag_text}
use control_system_adapter_o.Encryption.{
  EncryptionSettings, create_encryption, read_encryption, check_encryption_settings, new_encryption,
  is_true,
}

-- The settings that can be stored: an empty file name counts as none.
abbrev pub storable : EncryptionSettings → EncryptionSettings
storable s = record s {
  certificate = kept s.certificate;
  key = kept s.key;
  block_list = kept s.block_list;
  trust_list = kept s.trust_list;
  issuer_list = kept s.issuer_list;
}

pub is_true-flag_text : (b : Bool) → is_true (some (flag_text b)) ≡ b
unfolding opt_eq
is_true-flag_text true = refl
is_true-flag_text false = refl

module _ (L : Etree) (e : L.Element) (t : String) where
  -- New encryption settings read back from an element what `createEncryption` wrote to it; a file name
  -- that is the empty text is read as none.
  pub read_encryption-create_encryption :
      (s : EncryptionSettings) (b : Bool)
      → read_encryption L
          (create_encryption L s (L.sub_element e t))
          (record new_encryption { encryption_enabled = b })
        ≡ record (storable s) { encryption_enabled = b }
  unfolding read_encryption create_encryption set_given
  read_encryption-create_encryption s b =
      simp (etree_laws, build_laws, is_true-flag_text, opt_or_old-none, if-true-false)

-- `checkEncryptionSettings` passes exactly when none of the five file names is `None`; the empty text
-- passes.
pub check_encryption_settings-ok :
    (s : EncryptionSettings)
    → (check_encryption_settings s ≡ ok tt) ↔ (
        (s.key ≢ none)
        × (s.certificate ≢ none)
        × (s.trust_list ≢ none)
        × (s.issuer_list ≢ none)
        × (s.block_list ≢ none))
unfolding check_encryption_settings
check_encryption_settings-ok s = ground arith
