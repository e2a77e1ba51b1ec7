-- ===== src/Form/LdsDialog/Laws.antt =====
-- The LDS dialog and the configuration that it edits.
use control_system_adapter_o.Prelude.{◌≡◌, refl, sym, ap, ◌∙◌, true, not, some, List, [], ◌∷◌}
use control_system_adapter_o.Prelude.Text.{text_of}
use control_system_adapter_o.Prelude.Number.{ℤ}
use control_system_adapter_o.Config.{Config}
use control_system_adapter_o.Form.Qt.{Qt}
use control_system_adapter_o.Form.LdsDialog.{
  Fields, Dialog, new_dialog, Action, edit_address, edit_registry_name, toggle_register,
  edit_period, act, act_all,
}

-- The configuration with its texts never `None`.
abbrev pub filled : Config → Config
filled c = record c {
  lds_address = some (text_of c.lds_address);
  lds_registry_name = some (text_of c.lds_registry_name);
}

-- What an action means for the configuration, without any dialog.
unfoldable pub apply : Action → Config → Config
apply (edit_address t) c = record (filled c) { lds_address = some t }
apply (edit_registry_name t) c = record (filled c) { lds_registry_name = some t }
apply toggle_register c = record (filled c) { register_lds = not c.register_lds }
apply (edit_period z) c = record (filled c) { lds_register_period = z }

unfoldable pub apply_all : List Action → Config → Config
unfolding apply
apply_all [] c = c
apply_all (a ∷ actions) c = apply_all actions (apply a c)

module _ (Q : Qt) where
  -- A period that is entered is in the range of the field.
  abbrev pub Fits : Q.SpinBox → Action → Type 0
  Fits w (edit_period z) = Q.fits w z ≡ true
  Fits w _ = Unit {0}

  abbrev pub AllFit : Q.SpinBox → List Action → Type 0
  AllFit w [] = Unit {0}
  AllFit w (a ∷ actions) = Fits w a × AllFit w actions

  record Agrees (w : Q.SpinBox) (d : Dialog Q) : Type 0 where
    address : Q.text d.fields.lds_address ≡ text_of d.config.lds_address
    registry_name : Q.text d.fields.lds_registry_name ≡ text_of d.config.lds_registry_name
    register : Q.is_checked d.fields.register_lds ≡ d.config.register_lds
    period : Q.value d.fields.lds_register_period ≡ d.config.lds_register_period
    range : (z : ℤ) → Q.fits d.fields.lds_register_period z ≡ Q.fits w z

  new_dialog-Agrees :
      (ui : Fields Q) (c : Config)
      → Q.fits ui.lds_register_period c.lds_register_period ≡ true
      → Agrees ui.lds_register_period (new_dialog Q ui c)
  unfolding new_dialog
  new_dialog-Agrees ui c h = record {
    address = Q.text-set_text _ _;
    registry_name = Q.text-set_text _ _;
    register = Q.is_checked-set_checked _ _;
    period = Q.value-set_value _ _ h;
    range = λ z. Q.fits-set_value _ _ z;
  }

  act-Agrees :
      (w : Q.SpinBox) (a : Action) (d : Dialog Q) → Fits w a → Agrees w d → Agrees w (act Q a d)
  unfolding act
  act-Agrees w (edit_address t) d f h = record {
    address = refl;
    registry_name = refl;
    register = refl;
    period = refl;
    range = h.range;
  }
  act-Agrees w (edit_registry_name t) d f h = record {
    address = refl;
    registry_name = refl;
    register = refl;
    period = refl;
    range = h.range;
  }
  act-Agrees w toggle_register d f h = record {
    address = refl;
    registry_name = refl;
    register = refl;
    period = refl;
    range = h.range;
  }
  act-Agrees w (edit_period z) d f h = record {
    address = refl;
    registry_name = refl;
    register = refl;
    period = refl;
    range = λ y. Q.fits-set_value _ _ y ∙ h.range y;
  }

  act-config :
      (w : Q.SpinBox) (a : Action) (d : Dialog Q)
      → Fits w a
      → Agrees w d
      → (act Q a d).config ≡ apply a d.config
  unfolding act apply
  act-config w (edit_address t) d f h =
      simp (Q.text-set_text, h.registry_name, h.register, h.period)
  act-config w (edit_registry_name t) d f h =
      simp (Q.text-set_text, h.address, h.register, h.period)
  act-config w toggle_register d f h =
      simp (Q.is_checked-set_checked, h.address, h.registry_name, h.register, h.period)
  act-config w (edit_period z) d f h = simp (
    h.address,
    h.registry_name,
    h.register,
    Q.value-set_value d.fields.lds_register_period z (h.range z ∙ f),
  )

  run :
      (w : Q.SpinBox) (actions : List Action) (d : Dialog Q)
      → AllFit w actions
      → Agrees w d
      → (act_all Q actions d).config ≡ apply_all actions d.config
  unfolding act_all apply_all
  run w [] d f h = refl
  run w (a ∷ actions) d f h =
      run w actions (act Q a d) f.1 (act-Agrees w a d f.0 h)
      ∙ ap (apply_all actions) (act-config w a d f.0 h)

  -- If the period, and each period that the user enters, is in the range of its field, the
  -- configuration after any sequence of changes in the dialog is the given one changed as `apply` says.
  pub config-act_all :
      (ui : Fields Q) (c : Config) (actions : List Action)
      → Q.fits ui.lds_register_period c.lds_register_period ≡ true
      → AllFit ui.lds_register_period actions
      → (act_all Q actions (new_dialog Q ui c)).config ≡ apply_all actions c
  unfolding new_dialog
  config-act_all ui c actions h f =
      run ui.lds_register_period actions (new_dialog Q ui c) f (new_dialog-Agrees ui c h)

  -- The period is one that its field can hold, whose range is that of the field `w`.
  abbrev InRange : Q.SpinBox → Dialog Q → Type 0
  InRange w d =
      ((z : ℤ) → Q.fits d.fields.lds_register_period z ≡ Q.fits w z)
      × (Q.fits w d.config.lds_register_period ≡ true)

  act-InRange :
      (w : Q.SpinBox) (a : Action) (d : Dialog Q)
      → ((z : ℤ) → Q.fits d.fields.lds_register_period z ≡ Q.fits w z)
      → InRange w (act Q a d)
  unfolding act
  act-InRange w (edit_address t) d h = (h, sym (h _) ∙ Q.value_fits _)
  act-InRange w (edit_registry_name t) d h = (h, sym (h _) ∙ Q.value_fits _)
  act-InRange w toggle_register d h = (h, sym (h _) ∙ Q.value_fits _)
  act-InRange w (edit_period z) d h =
      (λ y. Q.fits-set_value _ _ y ∙ h y, sym (h _) ∙ sym (Q.fits-set_value _ z _) ∙ Q.value_fits _)

  act_all-InRange :
      (w : Q.SpinBox) (actions : List Action) (d : Dialog Q)
      → InRange w d
      → InRange w (act_all Q actions d)
  unfolding act_all
  act_all-InRange w [] d h = h
  act_all-InRange w (a ∷ actions) d h =
      act_all-InRange w actions (act Q a d) (act-InRange w a d h.0)

  -- After one or more changes in the dialog the period is in the range of its field, whatever the
  -- configuration had before, which a map file may have given another period, and whatever the user
  -- enters.
  pub period-act_all :
      (ui : Fields Q) (c : Config) (a : Action) (actions : List Action)
      → Q.fits ui.lds_register_period
          (act_all Q (a ∷ actions) (new_dialog Q ui c)).config.lds_register_period
        ≡ true
  unfolding act_all new_dialog
  period-act_all ui c a actions =
      let d = new_dialog Q ui c in
      (act_all-InRange ui.lds_register_period actions (act Q a d) (
        act-InRange ui.lds_register_period a d
          (λ z. Q.fits-set_value ui.lds_register_period c.lds_register_period z))).1
