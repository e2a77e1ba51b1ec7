-- ===== src/Config/Check.antt =====
-- When `createConfig` raises, and what it builds when it does not.
use Prim.Native.String.{String}
use control_system_adapter_o.Prelude.{
  ◌≡◌, Bool, not, ◌&&◌, ◌||◌, Option, none, some, List, [], ◌∷◌, arith, if◌then◌else◌,
}
use control_system_adapter_o.Prelude.Text.{given, is_none}
use control_system_adapter_o.Prelude.Result.{Exception, Result, ok, err, runtime_error, ◌>>◌}
use control_system_adapter_o.Etree.{Etree}
use control_system_adapter_o.Etree.Build.{append_if}
use control_system_adapter_o.Encryption.{check_encryption_settings}
use control_system_adapter_o.Config.{Config}
use control_system_adapter_o.Config.Write.{
  config_element, server_element, lds_element, login_element, security_element, add_lds, add_login,
  add_security, add_void, add_historizing, create_config,
}

abbrev pub no_trust_list : String
no_trust_list = "No trust list or CA related configuration set."

-- The required settings, in the order in which their absence is reported.
abbrev pub check_lds : Config → Result (Unit {0})
check_lds c =
    if not c.register_lds || given c.lds_address
    then ok tt
    else err (runtime_error "No lds address set but LDS  registration is enabled!")

abbrev pub check_login : Config → Result (Unit {0})
check_login c =
    if not c.enable_login
    then ok tt
    else if not (given c.username)
    then err (runtime_error "No username set!")
    else if not (given c.password)
    then err (runtime_error "No password set!")
    else ok tt

abbrev pub check_security : Config → Result (Unit {0})
check_security c = if c.encryption_enabled then check_encryption_settings c.encryption else ok tt

unfoldable pub check : Config → Result (Unit {0})
check c = do check_lds c; check_login c; check_security c

module _ (L : Etree) (c : Config) where
  abbrev pub with_server : L.Element → L.Element
  with_server root =
      L.append (config_element L c root) (server_element L c (config_element L c root))

  abbrev pub with_lds : L.Element → L.Element
  with_lds e = append_if L c.register_lds e (lds_element L c e)

  abbrev pub with_login : L.Element → L.Element
  with_login e = append_if L c.enable_login e (login_element L c e)

  abbrev pub with_security : L.Element → L.Element
  with_security e = append_if L c.encryption_enabled e (security_element L c e)

  -- The section with every part that is switched on.
  unfoldable pub full_config : L.Element → L.Element
  full_config root =
      add_historizing L c (add_void L c (with_security (with_login (with_lds (with_server root)))))

  add_lds_lem : (e : L.Element) → add_lds L c e ≡ (do check_lds c; ok (with_lds e))
  unfolding add_lds append_if
  add_lds_lem e = ground arith

  add_login_lem : (e : L.Element) → add_login L c e ≡ (do check_login c; ok (with_login e))
  unfolding add_login append_if
  add_login_lem e = ground arith

  add_security_lem :
      (e : L.Element) → add_security L c e ≡ (do check_security c; ok (with_security e))
  unfolding add_security append_if
  add_security_lem e = ground arith

  pub create_config_lem :
      (root : L.Element)
      → create_config L c root ≡ (do check c; ok (L.append root (full_config root)))
  unfolding create_config check full_config
  create_config_lem root = simp (add_lds_lem, add_login_lem, add_security_lem) (ground arith)

-- What `createConfig` requires, in the order in which it is looked for: whether it is missing, and the
-- message then.
abbrev pub requirements : Config → List (Bool × String)
requirements c =
    (
      c.register_lds && not (given c.lds_address),
      "No lds address set but LDS  registration is enabled!",
    )
    ∷ (c.enable_login && not (given c.username), "No username set!")
    ∷ (c.enable_login && not (given c.password), "No password set!")
    ∷ (c.encryption_enabled && is_none c.encryption.key, "Server key not set.")
    ∷ (c.encryption_enabled && is_none c.encryption.certificate, "Server certificate not set.")
    ∷ (c.encryption_enabled && is_none c.encryption.trust_list, no_trust_list)
    ∷ (c.encryption_enabled && is_none c.encryption.issuer_list, no_trust_list)
    ∷ (c.encryption_enabled && is_none c.encryption.block_list, no_trust_list)
    ∷ []

abbrev pub first_missing : List (Bool × String) → Option Exception
first_missing [] = none
first_missing ((missing, message) ∷ rest) =
    let later = first_missing rest in if missing then some (runtime_error message) else later

abbrev pub exception_of {ℓ} : {A : Type ℓ} → Result A → Option Exception
exception_of (ok a) = none
exception_of (err x) = some x

check-first_missing :
    (c : Config) {A : Type 0} (a : A)
    → exception_of (do check c; ok a) ≡ first_missing (requirements c)
unfolding check check_encryption_settings
check-first_missing c a = ground arith

-- `createConfig` raises an exception exactly if one of the required settings is missing: an address
-- with the registration, a user name and a password with the login, and a key, a certificate, a trust
-- list, an issuer list and a block list with the encryption. The exception is the `RuntimeError` with
-- the message of the first one in this order.
pub create_config-first_missing :
    (L : Etree) (c : Config) (root : L.Element)
    → exception_of (create_config L c root) ≡ first_missing (requirements c)
create_config-first_missing L c root =
    rw (create_config_lem L c root) (check-first_missing c (L.append root (full_config L c root)))
