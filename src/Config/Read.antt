-- ===== src/Config/Read.antt =====
-- `Config.readConfig`. The steps are in the order of the code, each from the settings that the one
-- before it leaves. A `ValueError` or a `KeyError` ends the method with what was read before it.
use control_system_adapter_o.Prelude.{
  Bool, true, false, ◌||◌, Option, none, some, List, [], ◌∷◌, ◌++◌, if◌then◌else◌,
}
use control_system_adapter_o.Prelude.Text.{Text, codes, text_eq, upper}
use control_system_adapter_o.Prelude.Number.{ℤ, int}
use control_system_adapter_o.Prelude.Result.{
  Run, done, raised, key_error, ◌▷◌, read_int, opt_or_old,
}
use control_system_adapter_o.Etree.{Etree}
use control_system_adapter_o.History.{HistorySetting, new_setting, read_history}
use control_system_adapter_o.Encryption.{read_encryption, new_encryption}
use control_system_adapter_o.Config.{Config}

abbrev pub levels : List Text
levels =
    codes "TRACE"
    ∷ codes "DEBUG"
    ∷ codes "INFO"
    ∷ codes "WARNING"
    ∷ codes "ERROR"
    ∷ codes "FATAL"
    ∷ []

-- `t in texts`
unfoldable pub contains : Text → List Text → Bool
unfolding text_eq
contains t [] = false
contains t (x ∷ xs) = text_eq t x || contains t xs

-- An unknown level is logged and left out.
unfoldable pub level_or_old : Option Text → Text → Text
unfolding contains upper
level_or_old none old = old
level_or_old (some t) old = if contains (upper t) levels then upper t else old

-- `attrib[key].upper() == 'TRUE'`
unfoldable pub says_true : Text → Bool
unfolding upper text_eq
says_true t = text_eq (upper t) (codes "TRUE")

abbrev pub register_or_old : Option Text → Bool → Bool
register_or_old none old = old
register_or_old (some t) old = says_true t

-- `useBool` is only ever switched on.
abbrev pub use_bool_or_old : Option Text → Bool → Bool
use_bool_or_old none old = old
use_bool_or_old (some t) old = if says_true t then true else old

-- `next((x for x in settings if x.name == name), None)`
unfoldable pub find_setting : Text → List HistorySetting → Option HistorySetting
unfolding text_eq
find_setting n [] = none
find_setting n (h ∷ hs) = if text_eq h.name n then some h else find_setting n hs

-- A setting whose name is taken is logged and left out.
unfoldable pub add_new : HistorySetting → List HistorySetting → List HistorySetting
unfolding find_setting
add_new h hs = elim (find_setting h.name hs) [ none ↦ hs ++ h ∷ [] | some _ ↦ hs ]

module _ (L : Etree) where
  -- The description is read only where there is a root folder.
  unfoldable pub read_root : L.Element → Config → Run Config
  read_root config c = elim (L.attrib config "rootFolder") [
    | none ↦ done c
    | some folder ↦
        let c1 = record c { root_folder = some folder } in
        elim (L.attrib config "description") [
          | none ↦ raised key_error c1
          | some text ↦ done (record c1 { application_description = text })
        ]
  ]

  server_level : L.Element → Config → Config
  server_level server c = record c {
    log_level = level_or_old (L.attrib server "logLevel") c.log_level;
  }

  unfoldable pub read_server : Option L.Element → Config → Run Config
  unfolding server_level
  read_server none c = done c
  read_server (some server) c =
      let c1 = record c {
        application_name = opt_or_old (L.attrib server "applicationName") c.application_name;
      } in
      read_int (L.attrib server "port") c1 (λ z. record c1 { port = some z })
      ▷ (λ c2. done (server_level server c2))

  -- A period that is no number is logged and left out.
  unfoldable pub period_or_old : Option Text → ℤ → ℤ
  period_or_old none old = old
  period_or_old (some t) old = elim (int t) [ none ↦ old | some z ↦ z ]

  unfoldable pub read_lds : Option L.Element → Config → Config
  read_lds none c = c
  read_lds (some lds) c = record c {
    register_lds = register_or_old (L.attrib lds "register") c.register_lds;
    lds_address = opt_or_old (L.attrib lds "address") c.lds_address;
    lds_registry_name = opt_or_old (L.attrib lds "registryName") c.lds_registry_name;
    lds_register_period = period_or_old (L.attrib lds "registerPeriod") c.lds_register_period;
  }

  unfoldable pub read_void : Option L.Element → Config → Config
  read_void none c = c
  read_void (some e) c = record c {
    use_bool_as_void = use_bool_or_old (L.attrib e "useBool") c.use_bool_as_void;
  }

  unfoldable pub read_login : Option L.Element → Config → Config
  read_login none c = record c { enable_login = false; username = none; password = none }
  read_login (some login) c = record c {
    enable_login = true;
    username = opt_or_old (L.attrib login "username") c.username;
    password = opt_or_old (L.attrib login "password") c.password;
  }

  -- Without a security element all encryption settings are those of `EncryptionSettings()`.
  unfoldable pub read_security : Option L.Element → Config → Config
  read_security none c = record c { encryption = new_encryption }
  read_security (some e) c = record c {
    encryption = read_encryption L e (record c.encryption { encryption_enabled = true });
  }

  unfoldable pub add_read : Run HistorySetting → Config → Run Config
  add_read (done h) c = done (record c { history_settings = add_new h c.history_settings })
  add_read (raised e h) c = raised e c

  -- `for setup in historizing.findall('setup')`
  unfoldable pub read_setups : List L.Element → Config → Run Config
  unfolding add_read
  read_setups [] c = done c
  read_setups (setup ∷ setups) c =
      add_read (read_history L setup (new_setting [])) c ▷ read_setups setups

  unfoldable pub read_historizing : Option L.Element → L.Element → Config → Run Config
  read_historizing none root c = done c
  read_historizing (some e) root c = read_setups (L.findall e "setup" (L.nsmap root)) c

  unfoldable pub read_sections : L.Element → L.Element → Config → Run Config
  read_sections root config c =
      read_root config c
      ▷ read_server (L.find config "server" [])
      ▷ (λ c1. done (read_lds (L.find config "lds" []) c1))
      ▷ (λ c2. done (read_void (L.find config "voidHandling" []) c2))
      ▷ (λ c3. done (read_login (L.find config "login" []) c3))
      ▷ (λ c4. done (read_security (L.find config "security" []) c4))
      ▷ read_historizing (L.find config "historizing" []) root

  unfoldable pub read_config : L.Element → Config → Run Config
  unfolding read_sections
  read_config root c = elim (L.find root "config" (L.nsmap root)) [
    | none ↦ done c
    | some config ↦ read_sections root config c
  ]
