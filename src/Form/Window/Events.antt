-- ===== src/Form/Window/Events.antt =====
-- The connections of `MapGeneratorForm.__init__`: what the window does on each signal. The choices in the
-- dialogs that a handler opens are part of the event.
use control_system_adapter_o.Prelude.{
  ℕ, Bool, true, false, Option, none, some, List, [], ◌∷◌, if◌then◌else◌,
}
use control_system_adapter_o.Prelude.Text.{Text}
use control_system_adapter_o.Prelude.Number.{ℤ}
use control_system_adapter_o.Prelude.Result.{Result, attribute_error, Run, done, raised, state}
use control_system_adapter_o.Etree.{Etree}
use control_system_adapter_o.Generator.{MapGenerator}
use control_system_adapter_o.Form.Qt.{Qt}
use control_system_adapter_o.Form.EncryptionDialog as EncryptionDialog
use control_system_adapter_o.Form.HistoryDialog as HistoryDialog
use control_system_adapter_o.Form.LdsDialog as LdsDialog
use control_system_adapter_o.Form.View.{ViewDirectory}
use control_system_adapter_o.Form.View.Rows.{no_history}
use control_system_adapter_o.Form.View.Top.{Place, add_history_at}
use control_system_adapter_o.Form.View.Target.{Gesture, gesture_at, drop_at, path_at}
use control_system_adapter_o.Form.Window.{
  Fields, Window, update_config, enable_login, update_encryption_configuration,
}
use control_system_adapter_o.Form.Window.Files.{open_file, Saved, save_file, save_file_as}
use control_system_adapter_o.Form.Window.Histories.{
  new_name, prepare_new_history_setting, edit_history_setting, put_view, load_map_file,
}
use control_system_adapter_o.Form.Window.Dialogs.{configure_encryption, configure_lds_settings}

-- The text fields of the configuration
pub data TextField : Type 0 where
  user_name password application_name root_folder application_description : TextField

module _ (Q : Qt) where
  pub data Event : Type 0 where
    -- the name that is chosen, which is empty if the user cancels
    opened : Text → Event
    -- the name that is chosen, if one is asked for and given
    -- what opening and writing the file gives, and the file that is chosen
    saved saved_as : Result (Unit {0}) → Option Text → Event
    loaded : Text → Event
    switched_login : Bool → Event
    typed_text : TextField → Text → Event
    chose_port : ℤ → Event
    chose_log_level : Text → Event
    switched_void : Bool → Event
    switched_encryption : Bool → Event
    configured_encryption : EncryptionDialog.Fields Q → List EncryptionDialog.Action → Event
    configured_lds : LdsDialog.Fields Q → List LdsDialog.Action → Event
    -- the object of the current item, and the dialog
    edited_history : ℕ → HistoryDialog.Fields Q → List HistoryDialog.Action → Event
    -- the dialog, and the item that is at the top of the tree then
    added_history : HistoryDialog.Fields Q → List HistoryDialog.Action → Place → Event
    -- whether the button is checked, and the item that is at the top of the tree
    set_inputs : Bool → Place → Event
    -- an item of the tree, by its place
    touched : Gesture → List ℕ → Option ℕ → Event
    -- the item, and the one that it is dropped on
    dropped : List ℕ → Option ℕ → List ℕ → Option ℕ → Event

  -- A handler that uses the generator raises an `AttributeError` where that is `None`.
  abbrev pub on_generator :
      (MapGenerator → Window Q → Run (Window Q)) → Option MapGenerator → Window Q → Run (Window Q)
  on_generator f none w = raised attribute_error w
  on_generator f (some g) w = f g w

  unfoldable pub set_field : TextField → Text → Fields Q → Fields Q
  set_field user_name t f = record f { user_name = Q.set_text f.user_name t }
  set_field password t f = record f { password = Q.set_text f.password t }
  set_field application_name t f = record f { application_name = Q.set_text f.application_name t }
  set_field root_folder t f = record f { root_folder = Q.set_text f.root_folder t }
  set_field application_description t f = record f {
    application_description = Q.set_text f.application_description t;
  }

  -- A field of the configuration has changed: `updateConfig`.
  unfoldable pub configured : Fields Q → Window Q → Run (Window Q)
  unfolding update_config
  configured f w =
      on_generator
        (λ g u.
          done (record u { generator = some (record g { config = update_config Q f g.config }) }))
        w.generator (record w { fields = f })

  -- The fields are enabled or disabled before the generator is used.
  unfoldable pub login_switched : Bool → Window Q → Run (Window Q)
  unfolding enable_login
  login_switched b w =
      let f = record w.fields { enable_login = Q.set_checked w.fields.enable_login b } in
      on_generator
        (λ g u.
          done
            (record u { generator = some (record g { config = (enable_login Q b f g.config).1 }) }))
        w.generator (record w { fields = record f { login_enabled = b } })

  unfoldable pub encryption_switched : Bool → Window Q → Run (Window Q)
  unfolding update_encryption_configuration
  encryption_switched b w =
      let f = record w.fields { enable_encryption = Q.set_checked w.fields.enable_encryption b } in
      on_generator
        (λ g u. done (record u {
          generator = some (record g { config = (update_encryption_configuration Q f g.config).1 });
        }))
        w.generator
        (record w {
          fields = record f { configure_encryption_enabled = Q.is_checked f.enable_encryption };
        })

  -- The item of the new setting is added before the generator is used.
  abbrev pub with_name :
      HistoryDialog.Fields Q
      → List HistoryDialog.Action
      → Place
      → Window Q
      → Option Text
      → Run (Window Q)
  with_name ui actions p w none = done w
  with_name ui actions p w (some name) = elim w.generator [
    | none ↦
        raised attribute_error
          (record w { histories = Q.set_current_text (Q.add_item w.histories name) name })
    | some g ↦ prepare_new_history_setting Q ui actions p name g w
  ]

  -- The search for a name always gives one.
  unfoldable pub history_added :
      HistoryDialog.Fields Q → List HistoryDialog.Action → Place → Window Q → Run (Window Q)
  unfolding new_name prepare_new_history_setting
  history_added ui actions p w = with_name ui actions p w (new_name (Q.items w.histories))

  -- What saving leaves of the window; the written file is the result of `save_file`.
  abbrev pub after_saving : {E : Type 0} → Window Q → Run (Saved E) → Run (Window Q)
  after_saving w (done s) =
      done (record w { generator = some s.generator; save_enabled = s.save_enabled })
  after_saving w (raised x s) =
      raised x (record w { generator = some s.generator; save_enabled = s.save_enabled })

  abbrev pub on_view :
      (ViewDirectory Q → Window Q → Run (Window Q))
      → Window Q
      → Option (ViewDirectory Q)
      → Run (Window Q)
  on_view f w none = done w
  on_view f w (some view) = f view w

  -- The top of an empty tree is `None`.
  abbrev pub inputs_set : Bool → Place → Window Q → Option (ViewDirectory Q) → Run (Window Q)
  inputs_set b p w none = raised attribute_error w
  inputs_set b p w (some view) = done (
      put_view Q (add_history_at Q (if b then Q.current_text w.histories else no_history) p view) w)

  -- A drop beside the items has no item, and one on a variable is refused.
  abbrev pub drop_on :
      List ℕ → Option ℕ → ViewDirectory Q → Window Q → Option Text → Option ℕ → Run (Window Q)
  drop_on p o view w path (some n) = done w
  drop_on p o view w none none = raised attribute_error w
  drop_on p o view w (some path) none = done (put_view Q (drop_at Q path p o view) w)

  module _ (L : Etree) (open_xml : Text → Result L.Element) where
    unfoldable pub handle : Event → Window Q → Run (Window Q)
    unfolding open_file save_file save_file_as load_map_file configured login_switched
        encryption_switched set_field configure_encryption configure_lds_settings
        edit_history_setting history_added add_history_at put_view gesture_at drop_at path_at
    handle (opened name) w = done (open_file Q L open_xml true false name w)
    handle (saved answer choice) w =
        on_generator (λ g u. after_saving u (save_file L answer choice g u.save_enabled))
          w.generator w
    handle (saved_as answer choice) w =
        on_generator (λ g u. after_saving u (save_file_as L answer choice g u.save_enabled))
          w.generator w
    handle (loaded name) w = load_map_file Q L open_xml name w
    handle (switched_login b) w = login_switched b w
    handle (typed_text field t) w = configured (set_field field t w.fields) w
    handle (chose_port z) w = configured (record w.fields { port = Q.set_value w.fields.port z }) w
    handle (chose_log_level t) w =
        configured (record w.fields { log_level = Q.set_current_text w.fields.log_level t }) w
    handle (switched_void b) w =
        configured
          (record w.fields { use_bool_as_void = Q.set_checked w.fields.use_bool_as_void b }) w
    handle (switched_encryption b) w = encryption_switched b w
    handle (configured_encryption ui actions) w =
        on_generator
          (λ g u. done (record u { generator = some (configure_encryption Q ui actions g) }))
          w.generator w
    handle (configured_lds ui actions) w =
        on_generator
          (λ g u. done (record u { generator = some (configure_lds_settings Q ui actions g) }))
          w.generator w
    handle (edited_history object ui actions) w =
        on_generator (λ g u. done (edit_history_setting Q ui actions object g u)) w.generator w
    handle (added_history ui actions p) w = history_added ui actions p w
    handle (set_inputs b p) w = inputs_set b p w w.tree
    handle (touched gesture p o) w =
        on_view (λ view u. done (put_view Q (gesture_at Q gesture p o view) u)) w w.tree
    handle (dropped p o q n) w =
        on_view (λ view u. drop_on p o view u (path_at Q q view) n) w w.tree

    -- A sequence of signals; an exception in a handler leaves the window as it is then.
    unfoldable pub handle_all : List Event → Window Q → Window Q
    unfolding handle
    handle_all [] w = w
    handle_all (e ∷ es) w = handle_all es (state (handle e w))
