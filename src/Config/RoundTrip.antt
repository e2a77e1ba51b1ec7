-- ===== src/Config/RoundTrip.antt =====
-- `readConfig` of what `createConfig` has built.
use mathlib.Core.Path.{subst}
use control_system_adapter_o.Prelude.{
  ◌≡◌, refl, sym, ap, ◌∙◌, Bool, true, false, not, ◌&&◌, Option, none, some, List, [], ◌∷◌, arith,
  Bool-cases, inl, inr, if◌then◌else◌, if-true-false,
}
use control_system_adapter_o.Prelude.Text.{Text, codes, given, text_of, text_eq, kept}
use control_system_adapter_o.Prelude.Number.{pos, nonzero}
use control_system_adapter_o.Prelude.Result.{check-ok, ok, done, opt_or_old, opt_or_old-none}
use control_system_adapter_o.Etree.{Etree, has_default}
use control_system_adapter_o.History.{HistorySetting}
use control_system_adapter_o.Encryption.{new_encryption}
use control_system_adapter_o.Encryption.Laws.{storable}
use control_system_adapter_o.Config.{Config, new_config}
use control_system_adapter_o.Config.Write.{
  lds_element, login_element, security_element, void_element, historizing_element, port_given,
  is_empty, add_setups, create_config,
}
use control_system_adapter_o.Config.Read.{
  read_root, read_lds, read_void, read_login, read_security, read_historizing, read_sections,
  read_config, read_setups, level_or_old,
}
use control_system_adapter_o.Config.Check.{check, full_config, create_config_lem}
use control_system_adapter_o.Config.Sections.{
  read_server-server_element, read_lds-lds_element, read_login-login_element,
  read_void-void_element, read_security-security_element,
}
use control_system_adapter_o.Config.Setups.{add_all, add_settings, read_setups-add_setups}
use control_system_adapter_o.Config.Find.{
  tag-full_config, attrib-root_folder, attrib-description, find-server, find-lds, find-login,
  find-security, find-void, find-historizing,
}

-- What the map file keeps of the settings.
abbrev pub restored : Config → Config
restored c = record c {
  encryption =
      if c.encryption_enabled
      then record (storable c.encryption) { encryption_enabled = true }
      else new_encryption;
  username = if c.enable_login then c.username else none;
  password = if c.enable_login then c.password else none;
  application_name = kept c.application_name;
  root_folder = kept c.root_folder;
  application_description = if given c.root_folder then c.application_description else [];
  port = if port_given c.port then c.port else none;
  history_settings = add_all c.history_settings [];
  log_level = level_or_old (some c.log_level) (codes "INFO");
  lds_address = if c.register_lds then c.lds_address else none;
  lds_registry_name = if c.register_lds then kept c.lds_registry_name else none;
  lds_register_period =
      if c.register_lds && nonzero c.lds_register_period then c.lds_register_period else pos 10;
}

if-given :
    (b : Bool) (o : Option Text)
    → (b ≡ true → given o ≡ true)
    → (if b then some (text_of o) else none) ≡ (if b then o else none)
if-given false o h = refl
if-given true none h = cc (h refl)
if-given true (some []) h = cc (h refl)
if-given true (some (x ∷ t)) h = refl

module _ (L : Etree) (e : L.Element) (c0 : Config) where
  read_root-some :
      (f d : Text)
      → L.attrib e "rootFolder" ≡ some f
      → L.attrib e "description" ≡ some d
      → read_root L e c0 ≡ done (record c0 { root_folder = some f; application_description = d })
  unfolding read_root
  read_root-some f d h k = rw (h, read_root) (rw k refl)

  read_root-none : L.attrib e "rootFolder" ≡ none → read_root L e c0 ≡ done c0
  unfolding read_root
  read_root-none h = rw (h, read_root) refl

  read_historizing-add_setups :
      (hs : List HistorySetting) (root : L.Element)
      → has_default (L.nsmap root) ≡ false
      → read_historizing L
          (if not (is_empty hs)
            then some (add_setups L hs (L.sub_element e "historizing"))
            else none)
          root
          c0
        ≡ done (add_settings hs c0)
  unfolding read_historizing read_setups
  read_historizing-add_setups [] root plain = refl
  read_historizing-add_setups (h ∷ hs) root plain =
      read_setups-add_setups L (h ∷ hs) (L.sub_element e "historizing") (L.nsmap root) plain c0
      ∙ rw L.findall-sub_element refl

module _ (L : Etree) (c : Config) (e : L.Element) (c0 : Config) where
  read_root_lem :
      L.attrib e "rootFolder" ≡ kept c.root_folder
      → L.attrib e "description" ≡ some c.application_description
      → read_root L e c0
        ≡ done (record c0 {
          root_folder = opt_or_old (kept c.root_folder) c0.root_folder;
          application_description =
              if given c.root_folder then c.application_description else c0.application_description;
        })
  read_root_lem h k = elim (Bool-cases (given c.root_folder)) [
    | inl set ↦ simp (
      set,
      read_root-some L e c0 (text_of c.root_folder) c.application_description (h ∙ simp set) k,
    )
    | inr unset ↦ simp (unset, read_root-none L e c0 (h ∙ simp unset))
  ]

  read_lds_lem :
      read_lds L (if c.register_lds then some (lds_element L c e) else none) c0 ≡ record c0 {
        register_lds = if c.register_lds then true else c0.register_lds;
        lds_address = if c.register_lds then some (text_of c.lds_address) else c0.lds_address;
        lds_registry_name =
            if c.register_lds
            then opt_or_old (kept c.lds_registry_name) c0.lds_registry_name
            else c0.lds_registry_name;
        lds_register_period =
            if c.register_lds && nonzero c.lds_register_period
            then c.lds_register_period
            else c0.lds_register_period;
      }
  read_lds_lem = elim (Bool-cases c.register_lds) [
    | inl on ↦ simp (on, read_lds-lds_element L c e c0)
    | inr off ↦ simp off (unfold read_lds in refl)
  ]

  read_login_lem :
      read_login L (if c.enable_login then some (login_element L c e) else none) c0 ≡ record c0 {
        enable_login = c.enable_login;
        username = if c.enable_login then some (text_of c.username) else none;
        password = if c.enable_login then some (text_of c.password) else none;
      }
  read_login_lem = elim (Bool-cases c.enable_login) [
    | inl on ↦ simp (on, read_login-login_element L c e c0)
    | inr off ↦ simp off (unfold read_login in refl)
  ]

  read_security_lem :
      c0.encryption ≡ new_encryption
      → read_security L (if c.encryption_enabled then some (security_element L c e) else none) c0
        ≡ record c0 {
          encryption =
              if c.encryption_enabled
              then record (storable c.encryption) { encryption_enabled = true }
              else new_encryption;
        }
  read_security_lem fresh = elim (Bool-cases c.encryption_enabled) [
    | inl on ↦ simp (on, read_security-security_element L c e c0 fresh)
    | inr off ↦ simp off (unfold read_security in refl)
  ]

  read_void_lem :
      read_void L (if c.use_bool_as_void then some (void_element L c e) else none) c0
      ≡ record c0 { use_bool_as_void = if c.use_bool_as_void then true else c0.use_bool_as_void }
  read_void_lem = elim (Bool-cases c.use_bool_as_void) [
    | inl on ↦ simp (on, read_void-void_element L c e c0)
    | inr off ↦ simp off (unfold read_void in refl)
  ]

  read_historizing_lem :
      (root : L.Element)
      → has_default (L.nsmap root) ≡ false
      → read_historizing L
          (if not (is_empty c.history_settings) then some (historizing_element L c e) else none)
          root
          c0
        ≡ done (add_settings c.history_settings c0)
  unfolding historizing_element
  read_historizing_lem root plain = read_historizing-add_setups L e c0 c.history_settings root plain

module _ (L : Etree) (c : Config) (root : L.Element) where
  find-config :
      has_default (L.nsmap root) ≡ false
      → L.findall root "config" (L.nsmap root) ≡ []
      → L.find
          (L.append root (full_config L c root))
          "config"
          (L.nsmap (L.append root (full_config L c root)))
        ≡ some (full_config L c root)
  unfolding text_eq
  find-config plain empty =
      rw
        (
          L.find-eq,
          L.nsmap-append,
          L.findall-append _ _ "config" (L.nsmap root) plain,
          empty,
          tag-full_config,
        )
        refl

  login_known :
      check c ≡ ok tt
      → (c.enable_login ≡ true → given c.username ≡ true)
        × (c.enable_login ≡ true → given c.password ≡ true)
        × (c.register_lds ≡ true → given c.lds_address ≡ true)
  unfolding check
  login_known h = ground arith

  read_sections-full_config :
      (n : L.Element)
      → has_default (L.nsmap n) ≡ false
      → check c ≡ ok tt
      → read_sections L n (full_config L c root) new_config ≡ done (restored c)
  unfolding read_sections
  read_sections-full_config n plain passed =
      simp
        (
          read_root_lem L c (full_config L c root) new_config (attrib-root_folder L c root)
              (attrib-description L c root),
          find-server,
          find-lds,
          find-login,
          find-security,
          find-void,
          find-historizing,
          read_server-server_element,
          read_lds_lem,
          read_login_lem,
          read_void_lem,
          read_historizing_lem,
          plain,
          opt_or_old-none,
          if-true-false,
          if-given c.enable_login c.username (login_known passed).0,
          if-given c.enable_login c.password (login_known passed).1,
          if-given c.register_lds c.lds_address (login_known passed).2,
        )
        (ap (λ s. done (add_settings c.history_settings s)) (read_security_lem L c _ _ refl))

  -- When `createConfig` does not raise, on a root element without a default namespace and without a
  -- section of settings, `readConfig` of new settings reads the settings back as `restored`: with the
  -- details of switched-off parts and empty texts gone, the description only with a root folder, the
  -- log level only if it is known, and of the history settings the first of each name.
  pub read_config-create_config :
      (built : L.Element)
      → has_default (L.nsmap root) ≡ false
      → L.findall root "config" (L.nsmap root) ≡ []
      → create_config L c root ≡ ok built
      → read_config L built new_config ≡ done (restored c)
  unfolding read_config
  read_config-create_config built plain empty success =
      let h = check-ok (check c) (sym (create_config_lem L c root) ∙ success) in
      subst (λ b. read_config L b new_config ≡ done (restored c)) h.1
        (rw (find-config plain empty, read_config)
          (read_sections-full_config (L.append root (full_config L c root))
            (rw L.nsmap-append plain) h.0))
