-- ===== src/Config/Find.antt =====
-- What `find` and the attributes give in the section that `createConfig` builds.
use mathlib.Core.List.{append-nil}
use control_system_adapter_o.Prelude.{◌≡◌, refl, not, none, some, List, [], ◌∷◌, if◌then◌else◌}
use control_system_adapter_o.Prelude.Text.{codes, text_eq, kept}
use control_system_adapter_o.Etree.{Etree}
use control_system_adapter_o.Etree.Laws.{etree_laws}
use control_system_adapter_o.Etree.Build.{build_laws, set_given, first-if}
use control_system_adapter_o.History.{HistorySetting}
use control_system_adapter_o.Encryption.{create_encryption}
use control_system_adapter_o.Config.{Config}
use control_system_adapter_o.Config.Write.{
  config_element, server_element, lds_element, login_element, security_element, void_element,
  historizing_element, add_setups, add_void, add_historizing, is_empty,
}
use control_system_adapter_o.Config.Check.{
  with_server, with_lds, with_login, with_security, full_config,
}

module _ (L : Etree) where
  tag-add_setups : (hs : List HistorySetting) (e : L.Element) → L.tag (add_setups L hs e) ≡ L.tag e
  unfolding add_setups
  tag-add_setups [] e = refl
  tag-add_setups (h ∷ hs) e = rw (tag-add_setups hs, L.tag-append) refl

module _ (L : Etree) (c : Config) where
  tag-config : (e : L.Element) → L.tag (config_element L c e) ≡ codes "config"
  unfolding config_element set_given
  tag-config e = simp (etree_laws, build_laws)

  tag-server : (e : L.Element) → L.tag (server_element L c e) ≡ codes "server"
  unfolding server_element set_given
  tag-server e = simp (etree_laws, build_laws)

  tag-lds : (e : L.Element) → L.tag (lds_element L c e) ≡ codes "lds"
  unfolding lds_element set_given
  tag-lds e = simp (etree_laws, build_laws)

  tag-login : (e : L.Element) → L.tag (login_element L c e) ≡ codes "login"
  unfolding login_element
  tag-login e = simp etree_laws

  tag-security : (e : L.Element) → L.tag (security_element L c e) ≡ codes "security"
  unfolding security_element create_encryption set_given
  tag-security e = simp (etree_laws, build_laws)

  tag-void : (e : L.Element) → L.tag (void_element L c e) ≡ codes "voidHandling"
  unfolding void_element
  tag-void e = simp etree_laws

  tag-historizing : (e : L.Element) → L.tag (historizing_element L c e) ≡ codes "historizing"
  unfolding historizing_element
  tag-historizing e = simp (tag-add_setups L, etree_laws)

ruleset tags = (
  etree_laws, build_laws, first-if, append-nil, tag-config, tag-server, tag-lds, tag-login,
  tag-security, tag-void, tag-historizing,
)

module _ (L : Etree) (c : Config) (root : L.Element) where
  pub tag-full_config : L.tag (full_config L c root) ≡ codes "config"
  unfolding full_config add_historizing add_void
  tag-full_config = simp tags

  pub attrib-root_folder : L.attrib (full_config L c root) "rootFolder" ≡ kept c.root_folder
  unfolding full_config add_historizing add_void config_element set_given
  attrib-root_folder = simp tags

  pub attrib-description :
      L.attrib (full_config L c root) "description" ≡ some c.application_description
  unfolding full_config add_historizing add_void config_element set_given
  attrib-description = simp tags

  pub find-server :
      L.find (full_config L c root) "server" []
      ≡ some (server_element L c (config_element L c root))
  unfolding full_config add_historizing add_void config_element set_given text_eq
  find-server = simp tags

  pub find-lds :
      L.find (full_config L c root) "lds" []
      ≡ (if c.register_lds then some (lds_element L c (with_server L c root)) else none)
  unfolding full_config add_historizing add_void config_element set_given text_eq
  find-lds = simp tags

  pub find-login : L.find (full_config L c root) "login" [] ≡ (
      if c.enable_login
      then some (login_element L c (with_lds L c (with_server L c root)))
      else none)
  unfolding full_config add_historizing add_void config_element set_given text_eq
  find-login = simp tags

  pub find-security : L.find (full_config L c root) "security" [] ≡ (
      if c.encryption_enabled
      then some (security_element L c (with_login L c (with_lds L c (with_server L c root))))
      else none)
  unfolding full_config add_historizing add_void config_element set_given text_eq
  find-security = simp tags

  pub find-void : L.find (full_config L c root) "voidHandling" [] ≡ (
      if c.use_bool_as_void
      then some (
          void_element L c
            (with_security L c (with_login L c (with_lds L c (with_server L c root)))))
      else none)
  unfolding full_config add_historizing add_void config_element set_given text_eq
  find-void = simp tags

  pub find-historizing : L.find (full_config L c root) "historizing" [] ≡ (
      if not (is_empty c.history_settings)
      then some (
          historizing_element L c (
            add_void L c
              (with_security L c (with_login L c (with_lds L c (with_server L c root))))))
      else none)
  unfolding full_config add_historizing add_void config_element set_given text_eq
  find-historizing = simp tags
