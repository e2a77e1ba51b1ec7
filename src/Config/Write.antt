-- ===== src/Config/Write.antt =====
-- `Config.createConfig`. The steps are in the order of the code, and each gives the config element
-- that it leaves; the element under construction is lost when the method raises.
use control_system_adapter_o.Prelude.{
  Bool, true, false, not, Option, none, some, List, [], ◌∷◌, if◌then◌else◌,
}
use control_system_adapter_o.Prelude.Text.{codes, given, text_of}
use control_system_adapter_o.Prelude.Number.{ℤ, pos, str, nonzero}
use control_system_adapter_o.Prelude.Result.{Result, ok, err, runtime_error, ◌>>=◌, ◌>>◌}
use control_system_adapter_o.Etree.{Etree}
use control_system_adapter_o.Etree.Build.{set_if, set_given, append_if}
use control_system_adapter_o.History.{HistorySetting, write_setting}
use control_system_adapter_o.Encryption.{check_encryption_settings, create_encryption}
use control_system_adapter_o.Config.{Config}

-- Truth of a port that may be `None`.
abbrev pub port_given : Option ℤ → Bool
port_given none = false
port_given (some z) = nonzero z

abbrev pub number_of : Option ℤ → ℤ
number_of none = pos 0
number_of (some z) = z

abbrev pub is_empty {ℓ} : {A : Type ℓ} → List A → Bool
is_empty [] = true
is_empty (_ ∷ _) = false

module _ (L : Etree) where
  -- `for setting in self.historySettings`
  unfoldable pub add_setups : List HistorySetting → L.Element → L.Element
  add_setups [] e = e
  add_setups (h ∷ hs) e = add_setups hs (L.append e (write_setting L h (L.sub_element e "setup")))

module _ (L : Etree) (c : Config) where
  -- `ET.SubElement(root, "config")` with its attributes
  unfoldable pub config_element : L.Element → L.Element
  config_element root =
      L.set (set_given L (L.sub_element root "config") "rootFolder" c.root_folder) "description"
        c.application_description

  unfoldable pub server_element : L.Element → L.Element
  server_element config =
      let e1 = set_given L (L.sub_element config "server") "applicationName" c.application_name in
      let e2 = set_if L (port_given c.port) e1 "port" (str (number_of c.port)) in
      L.set e2 "logLevel" c.log_level

  unfoldable pub lds_element : L.Element → L.Element
  lds_element config =
      let e1 = L.set (L.sub_element config "lds") "register" (codes "True") in
      let e2 = L.set e1 "address" (text_of c.lds_address) in
      let e3 = set_given L e2 "registryName" c.lds_registry_name in
      set_if L (nonzero c.lds_register_period) e3 "registerPeriod" (str c.lds_register_period)

  unfoldable pub add_lds : L.Element → Result L.Element
  add_lds config =
      if not c.register_lds
      then ok config
      else if given c.lds_address
      then ok (L.append config (lds_element config))
      else err (runtime_error "No lds address set but LDS  registration is enabled!")

  unfoldable pub login_element : L.Element → L.Element
  login_element config =
      L.set (L.set (L.sub_element config "login") "username" (text_of c.username)) "password"
        (text_of c.password)

  unfoldable pub add_login : L.Element → Result L.Element
  add_login config =
      if not c.enable_login
      then ok config
      else if not (given c.username)
      then err (runtime_error "No username set!")
      else if not (given c.password)
      then err (runtime_error "No password set!")
      else ok (L.append config (login_element config))

  unfoldable pub security_element : L.Element → L.Element
  security_element config = create_encryption L c.encryption (L.sub_element config "security")

  unfoldable pub add_security : L.Element → Result L.Element
  add_security config =
      if not c.encryption_enabled
      then ok config
      else do check_encryption_settings c.encryption; ok (L.append config (security_element config))

  unfoldable pub void_element : L.Element → L.Element
  void_element config = L.set (L.sub_element config "voidHandling") "useBool" (codes "True")

  unfoldable pub add_void : L.Element → L.Element
  add_void config = append_if L c.use_bool_as_void config (void_element config)

  unfoldable pub historizing_element : L.Element → L.Element
  historizing_element config = add_setups L c.history_settings (L.sub_element config "historizing")

  unfoldable pub add_historizing : L.Element → L.Element
  add_historizing config =
      append_if L (not (is_empty c.history_settings)) config (historizing_element config)

  unfoldable pub create_config : L.Element → Result L.Element
  create_config root = do
    let config = config_element root
    lds ← add_lds (L.append config (server_element config))
    login ← add_login lds
    security ← add_security login
    ok (L.append root (add_historizing (add_void security)))
