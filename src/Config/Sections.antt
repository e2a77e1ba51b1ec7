-- ===== src/Config/Sections.antt =====
-- Reading back each element that `createConfig` makes.
use control_system_adapter_o.Prelude.{
  ◌≡◌, refl, true, Option, none, some, Bool-cases, inl, inr, if◌then◌else◌,
}
use control_system_adapter_o.Prelude.Text.{codes, text_of, kept}
use control_system_adapter_o.Prelude.Number.{ℤ, str, int-str, nonzero}
use control_system_adapter_o.Prelude.Result.{done, read_int-str, read_int-none, opt_or_old}
use control_system_adapter_o.Etree.{Etree}
use control_system_adapter_o.Etree.Laws.{etree_laws}
use control_system_adapter_o.Etree.Build.{build_laws, set_given, set_if}
use control_system_adapter_o.Encryption.{new_encryption}
use control_system_adapter_o.Encryption.Laws.{storable, read_encryption-create_encryption}
use control_system_adapter_o.Config.{Config}
use control_system_adapter_o.Config.Write.{
  server_element, lds_element, login_element, security_element, void_element, port_given, number_of,
}
use control_system_adapter_o.Config.Read.{
  read_server, read_lds, read_void, read_login, read_security, level_or_old, period_or_old,
  says_true,
}

port_given-some : (p : Option ℤ) → port_given p ≡ true → some (number_of p) ≡ p
port_given-some none h = cc
port_given-some (some z) h = refl

period_or_old-str : (L : Etree) (z old : ℤ) → period_or_old L (some (str z)) old ≡ z
unfolding period_or_old
period_or_old-str L z old = rw (int-str z, period_or_old) refl

period_or_old-none : (L : Etree) (old : ℤ) → period_or_old L none old ≡ old
unfolding period_or_old
period_or_old-none L old = refl

says_true-true : says_true (codes "True") ≡ true
unfolding says_true
says_true-true = refl

module _ (L : Etree) (c : Config) (e : L.Element) (c0 : Config) where
  pub read_server-server_element :
      read_server L (some (server_element L c e)) c0
      ≡ done (record c0 {
        application_name = opt_or_old (kept c.application_name) c0.application_name;
        port = if port_given c.port then c.port else c0.port;
        log_level = level_or_old (some c.log_level) c0.log_level;
      })
  unfolding read_server server_element set_given set_if
  read_server-server_element = elim (Bool-cases (port_given c.port)) [
    | inl set ↦ simp (set, etree_laws, build_laws, read_int-str, port_given-some c.port set)
    | inr unset ↦ simp (unset, etree_laws, build_laws, read_int-none)
  ]

  pub read_lds-lds_element : read_lds L (some (lds_element L c e)) c0 ≡ record c0 {
    register_lds = true;
    lds_address = some (text_of c.lds_address);
    lds_registry_name = opt_or_old (kept c.lds_registry_name) c0.lds_registry_name;
    lds_register_period =
        if nonzero c.lds_register_period then c.lds_register_period else c0.lds_register_period;
  }
  unfolding read_lds lds_element set_given set_if
  read_lds-lds_element = elim (Bool-cases (nonzero c.lds_register_period)) [
    | inl set ↦ simp (set, etree_laws, build_laws, says_true-true, period_or_old-str)
    | inr unset ↦ simp (unset, etree_laws, build_laws, says_true-true, period_or_old-none)
  ]

  pub read_login-login_element : read_login L (some (login_element L c e)) c0 ≡ record c0 {
    enable_login = true;
    username = some (text_of c.username);
    password = some (text_of c.password);
  }
  unfolding read_login login_element
  read_login-login_element = simp (etree_laws)

  pub read_void-void_element :
      read_void L (some (void_element L c e)) c0 ≡ record c0 { use_bool_as_void = true }
  unfolding read_void void_element
  read_void-void_element = simp (etree_laws, says_true-true)

  pub read_security-security_element :
      c0.encryption ≡ new_encryption
      → read_security L (some (security_element L c e)) c0
        ≡ record c0 { encryption = record (storable c.encryption) { encryption_enabled = true } }
  unfolding read_security security_element
  read_security-security_element fresh = rw fresh (rw read_encryption-create_encryption refl)
