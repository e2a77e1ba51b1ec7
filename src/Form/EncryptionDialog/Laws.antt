-- ===== src/Form/EncryptionDialog/Laws.antt =====
-- The encryption dialog and the settings that it edits.
use control_system_adapter_o.Prelude.{
  ◌≡◌, refl, ap, ◌∙◌, true, not, Option, none, some, List, [], ◌∷◌, if◌then◌else◌, arith,
}
use control_system_adapter_o.Prelude.Text.{Text, given, text_of}
use control_system_adapter_o.Encryption.{EncryptionSettings}
use control_system_adapter_o.Form.Qt.{Qt}
use control_system_adapter_o.Form.EncryptionDialog.{
  Fields, Dialog, show_given, new_dialog, Action, set_user_cert, set_private_key, set_trust_list,
  set_block_list, set_issuer_list, toggle_unsecure, toggle_any_certificate, act, act_all,
}

-- What an action means for the settings, without any dialog.
abbrev pub replaced : Option Text → Option Text → Option Text
replaced none old = old
replaced (some t) old = some t

abbrev pub replaced_if_given : Option Text → Option Text → Option Text
replaced_if_given o old = if given o then some (text_of o) else old

unfoldable pub apply : Action → EncryptionSettings → EncryptionSettings
apply (set_user_cert o) s = record s { certificate = replaced o s.certificate }
apply (set_private_key o) s = record s { key = replaced o s.key }
apply (set_trust_list o) s = record s { trust_list = replaced_if_given o s.trust_list }
apply (set_block_list o) s = record s { block_list = replaced_if_given o s.block_list }
apply (set_issuer_list o) s = record s { issuer_list = replaced_if_given o s.issuer_list }
apply toggle_unsecure s = record s { add_unsecure_endpoint = not s.add_unsecure_endpoint }
apply toggle_any_certificate s = record s { allow_any_certificate = not s.allow_any_certificate }

unfoldable pub apply_all : List Action → EncryptionSettings → EncryptionSettings
unfolding apply
apply_all [] s = s
apply_all (a ∷ actions) s = apply_all actions (apply a s)

module _ (Q : Qt) where
  -- A field shows a value that is given.
  abbrev pub Shows : Q.LineEdit → Option Text → Type 0
  Shows w o = given o ≡ true → Q.text w ≡ text_of o

  pub record Agrees (d : Dialog Q) : Type 0 where
    pub user_cert : Shows d.fields.user_cert d.settings.certificate
    pub private_key : Shows d.fields.private_key d.settings.key
    pub trust_list : Shows d.fields.trust_list d.settings.trust_list
    pub block_list : Shows d.fields.block_list d.settings.block_list
    pub issuer_list : Shows d.fields.issuer_list d.settings.issuer_list
    pub unsecure : Q.is_checked d.fields.add_unsecure_endpoint ≡ d.settings.add_unsecure_endpoint
    pub any : Q.is_checked d.fields.allow_any_certificate ≡ d.settings.allow_any_certificate

  show_given-Shows : (w : Q.LineEdit) (o : Option Text) → Shows (show_given Q w o) o
  show_given-Shows w o h = rw h (Q.text-set_text w (text_of o))

  new_dialog-Agrees : (ui : Fields Q) (s : EncryptionSettings) → Agrees (new_dialog Q ui s)
  unfolding new_dialog
  new_dialog-Agrees ui s = record {
    user_cert = show_given-Shows ui.user_cert s.certificate;
    private_key = show_given-Shows ui.private_key s.key;
    trust_list = show_given-Shows ui.trust_list s.trust_list;
    block_list = show_given-Shows ui.block_list s.block_list;
    issuer_list = show_given-Shows ui.issuer_list s.issuer_list;
    unsecure = Q.is_checked-set_checked _ _;
    any = Q.is_checked-set_checked _ _;
  }

  set-Shows : (w : Q.LineEdit) (t : Text) → Shows (Q.set_text w t) (some t)
  set-Shows w t h = Q.text-set_text w t

  act-Agrees : (a : Action) (d : Dialog Q) → Agrees d → Agrees (act Q a d)
  unfolding act
  act-Agrees (set_user_cert none) d h = h
  act-Agrees (set_user_cert (some f)) d h = ground (arith, Q.text-set_text d.fields.user_cert f)
  act-Agrees (set_private_key none) d h = h
  act-Agrees (set_private_key (some f)) d h = ground (arith, Q.text-set_text d.fields.private_key f)
  act-Agrees (set_trust_list o) d h =
      ground (arith, Q.text-set_text d.fields.trust_list (text_of o))
  act-Agrees (set_block_list o) d h =
      ground (arith, Q.text-set_text d.fields.block_list (text_of o))
  act-Agrees (set_issuer_list o) d h =
      ground (arith, Q.text-set_text d.fields.issuer_list (text_of o))
  act-Agrees toggle_unsecure d h = ground (
    arith,
    Q.is_checked-set_checked d.fields.add_unsecure_endpoint
        (not (Q.is_checked d.fields.add_unsecure_endpoint)),
  )
  act-Agrees toggle_any_certificate d h = ground (
    arith,
    Q.is_checked-set_checked d.fields.allow_any_certificate
        (not (Q.is_checked d.fields.allow_any_certificate)),
  )

  act-settings : (a : Action) (d : Dialog Q) → Agrees d → (act Q a d).settings ≡ apply a d.settings
  unfolding act apply
  act-settings (set_user_cert none) d h = refl
  act-settings (set_user_cert (some f)) d h = refl
  act-settings (set_private_key none) d h = refl
  act-settings (set_private_key (some f)) d h = refl
  act-settings (set_trust_list o) d h = ground arith
  act-settings (set_block_list o) d h = ground arith
  act-settings (set_issuer_list o) d h = ground arith
  act-settings toggle_unsecure d h = simp (Q.is_checked-set_checked, h.unsecure, h.any)
  act-settings toggle_any_certificate d h = simp (Q.is_checked-set_checked, h.unsecure, h.any)

  run :
      (actions : List Action) (d : Dialog Q)
      → Agrees d
      → Agrees (act_all Q actions d)
        × ((act_all Q actions d).settings ≡ apply_all actions d.settings)
  unfolding act_all apply_all
  run [] d h = (h, refl)
  run (a ∷ actions) d h =
      let rest = run actions (act Q a d) (act-Agrees a d h) in
      (rest.0, rest.1 ∙ ap (apply_all actions) (act-settings a d h))

  -- Whatever the user does in the dialog, in any order, the settings are the given ones changed by the
  -- actions one after the other as `apply` says, and every field shows the setting that it stands for,
  -- if that is given.
  pub settings-act_all :
      (ui : Fields Q) (s : EncryptionSettings) (actions : List Action)
      → ((act_all Q actions (new_dialog Q ui s)).settings ≡ apply_all actions s)
        × Agrees (act_all Q actions (new_dialog Q ui s))
  unfolding new_dialog
  settings-act_all ui s actions =
      let both = run actions (new_dialog Q ui s) (new_dialog-Agrees ui s) in (both.1, both.0)
