-- ===== src/Form/Window/Settings.antt =====
-- The configuration fields show the settings, and give them back.
use control_system_adapter_o.Prelude.{◌≡◌, refl, true, Option, none, some}
use control_system_adapter_o.Prelude.Text.{Text}
use control_system_adapter_o.Prelude.Number.{ℤ}
use control_system_adapter_o.Prelude.Result.{done}
use control_system_adapter_o.Config.{Config}
use control_system_adapter_o.Generator.{MapGenerator}
use control_system_adapter_o.Form.Qt.{Qt, contains}
use control_system_adapter_o.Form.Window.{
  Fields, Window, set_text_box, set_spin_box, fill_config, update_config,
}
use control_system_adapter_o.Form.Window.Events.{
  TextField, user_name, password, application_name, root_folder, application_description, set_field,
  configured,
}

module _ (Q : Qt) where
  -- What a text field holds behind `_fillConfig`: the old text, if there is no value.
  abbrev pub shown_text : Option Text → Q.LineEdit → Text
  shown_text none w = Q.text w
  shown_text (some t) w = t

  abbrev pub shown_value : Option ℤ → Q.SpinBox → ℤ
  shown_value none w = Q.value w
  shown_value (some z) w = z

  abbrev pub PortFits : Option ℤ → Q.SpinBox → Type 0
  PortFits none w = Unit {0}
  PortFits (some z) w = Q.fits w z ≡ true

  text-set_text_box :
      (o : Option Text) (w : Q.LineEdit) → Q.text (set_text_box Q o w) ≡ shown_text o w
  text-set_text_box none w = refl
  text-set_text_box (some t) w = Q.text-set_text w t

  value-set_spin_box :
      (o : Option ℤ) (w : Q.SpinBox) → PortFits o w → Q.value (set_spin_box Q o w) ≡ shown_value o w
  value-set_spin_box none w h = refl
  value-set_spin_box (some z) w h = Q.value-set_value w z h

  -- The settings that the fields show: a missing one is the old text or value of its field.
  abbrev pub shown_config : Config → Fields Q → Config
  shown_config c f = record c {
    username = some (shown_text c.username f.user_name);
    password = some (shown_text c.password f.password);
    application_name = some (shown_text c.application_name f.application_name);
    root_folder = some (shown_text c.root_folder f.root_folder);
    port = some (shown_value c.port f.port);
  }

  update_config-fill_config :
      (c : Config) (f : Fields Q)
      → PortFits c.port f.port
      → contains (Q.items f.log_level) c.log_level ≡ true
      → update_config Q (fill_config Q c f) c ≡ shown_config c f
  unfolding update_config fill_config
  update_config-fill_config c f fits known = simp (
    text-set_text_box,
    Q.text-set_text,
    Q.is_checked-set_checked,
    value-set_spin_box c.port f.port fits,
    Q.current_text-set_current_text f.log_level c.log_level known,
  )

  -- What typing a text into a field means for the settings
  unfoldable pub with_text : TextField → Text → Config → Config
  with_text user_name t c = record c { username = some t }
  with_text password t c = record c { password = some t }
  with_text application_name t c = record c { application_name = some t }
  with_text root_folder t c = record c { root_folder = some t }
  with_text application_description t c = record c { application_description = t }

  update_config-set_field :
      (field : TextField) (t : Text) (f : Fields Q) (c : Config)
      → update_config Q (set_field Q field t f) c ≡ with_text field t (update_config Q f c)
  unfolding update_config set_field with_text
  update_config-set_field user_name t f c = rw (Q.text-set_text) refl
  update_config-set_field password t f c = rw (Q.text-set_text) refl
  update_config-set_field application_name t f c = rw (Q.text-set_text) refl
  update_config-set_field root_folder t f c = rw (Q.text-set_text) refl
  update_config-set_field application_description t f c = rw (Q.text-set_text) refl

  -- If `_fillConfig` has filled the fields, the port was in the range of its field and the log level
  -- one of the items, then typing a text into any field of the configuration assigns it to the setting
  -- of this field. Every other setting stays, but for a missing one: that takes the text or value which
  -- its field had before it was filled.
  pub configured-fill_config :
      (field : TextField) (t : Text) (g : MapGenerator) (f : Fields Q) (w : Window Q)
      → w.generator ≡ some g
      → PortFits g.config.port f.port
      → contains (Q.items f.log_level) g.config.log_level ≡ true
      → configured Q (set_field Q field t (fill_config Q g.config f)) w
        ≡ done (record w {
          fields = set_field Q field t (fill_config Q g.config f);
          generator = some (record g { config = with_text field t (shown_config g.config f) });
        })
  unfolding configured
  configured-fill_config field t g f w e fits known =
      rw
        (
          e,
          update_config-set_field field t (fill_config Q g.config f) g.config,
          update_config-fill_config g.config f fits known,
        )
        refl
