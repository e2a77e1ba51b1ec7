-- ===== src/Form/Window/Consistent/Session.antt =====
-- Every sequence of signals from the start of the window on.
use mathlib.Core.Path.{subst}
use control_system_adapter_o.Prelude.{
  ℕ, ◌≡◌, refl, sym, Bool, true, false, Option, none, some, List, [], ◌∷◌,
}
use control_system_adapter_o.Prelude.Text.{Text}
use control_system_adapter_o.Prelude.Result.{Result, Run, done, raised, state, attribute_error}
use control_system_adapter_o.Etree.{Etree}
use control_system_adapter_o.Generator.{MapGenerator}
use control_system_adapter_o.Form.Qt.{Qt}
use control_system_adapter_o.Form.HistoryDialog as HistoryDialog
use control_system_adapter_o.Form.View.{ViewDirectory}
use control_system_adapter_o.Form.View.Target.{Gesture, gesture_at, path_at}
use control_system_adapter_o.Form.View.Same.Gestures.{gesture_at-Alike, drop_at-Alike}
use control_system_adapter_o.Form.View.Top.{Place}
use control_system_adapter_o.Form.View.Same.Top.{add_history_at-Alike}
use control_system_adapter_o.Form.Window.{Fields, Window}
use control_system_adapter_o.Form.Window.Files.{Saved, new_window, save_file, save_file_as}
use control_system_adapter_o.Form.Window.Histories.{
  new_name, add_to_tree, add_history_setting, prepare_new_history_setting, edit_history_setting,
  put_view,
}
use control_system_adapter_o.Form.Window.Dialogs.{configure_encryption, configure_lds_settings}
use control_system_adapter_o.Form.Window.Events as Events
use control_system_adapter_o.Form.Window.Events.{
  Event, on_generator, configured, login_switched, encryption_switched, with_name, history_added,
  after_saving, inputs_set, on_view, drop_on, handle, handle_all,
}
use control_system_adapter_o.Form.Window.Synced.{add_to_tree-AreSynced, generator-add_to_tree}
use control_system_adapter_o.Form.Window.Consistent.{
  IsConsistent, AreConsistent, same_dir-AreConsistent, put_view-IsConsistent,
}
use control_system_adapter_o.Form.Window.Consistent.Steps.{
  open_file-IsConsistent, load_map_file-IsConsistent, new_window-IsConsistent,
}
use control_system_adapter_o.Form.Window.Consistent.Saved.{
  LeavesDir, save_file_as-LeavesDir, save_file-LeavesDir,
}

module _ (Q : Qt) where
  -- A handler that uses the generator, on a window whose fields may have changed before
  on_generator-IsConsistent :
      (f : MapGenerator → Window Q → Run (Window Q)) (o : Option MapGenerator) (w : Window Q)
      → w.generator ≡ o
      → IsConsistent Q w
      → ((g : MapGenerator) → AreConsistent Q w.tree (some g) → IsConsistent Q (state (f g w)))
      → IsConsistent Q (state (on_generator Q f o w))
  on_generator-IsConsistent f none w e h keeps = h
  on_generator-IsConsistent f (some g) w e h keeps = keeps g (subst (AreConsistent Q w.tree) e h)

  configured-IsConsistent :
      (f : Fields Q) (w : Window Q) → IsConsistent Q w → IsConsistent Q (state (configured Q f w))
  unfolding configured
  configured-IsConsistent f w h =
      on_generator-IsConsistent _ w.generator (record w { fields = f }) refl h
        (λ g k. same_dir-AreConsistent Q w.tree g _ refl k)

  login_switched-IsConsistent :
      (b : Bool) (w : Window Q) → IsConsistent Q w → IsConsistent Q (state (login_switched Q b w))
  unfolding login_switched
  login_switched-IsConsistent b w h =
      on_generator-IsConsistent _ w.generator
        (record w {
          fields = record w.fields {
            enable_login = Q.set_checked w.fields.enable_login b;
            login_enabled = b;
          };
        })
        refl h (λ g k. same_dir-AreConsistent Q w.tree g _ refl k)

  encryption_switched-IsConsistent :
      (b : Bool) (w : Window Q)
      → IsConsistent Q w
      → IsConsistent Q (state (encryption_switched Q b w))
  unfolding encryption_switched
  encryption_switched-IsConsistent b w h =
      let box = Q.set_checked w.fields.enable_encryption b in
      on_generator-IsConsistent _ w.generator
        (record w {
          fields = record w.fields {
            enable_encryption = box;
            configure_encryption_enabled = Q.is_checked box;
          };
        })
        refl h (λ g k. same_dir-AreConsistent Q w.tree g _ refl k)

  after_saving-IsConsistent :
      (E : Type 0) (g : MapGenerator) (w : Window Q) (r : Run (Saved E))
      → LeavesDir g r
      → AreConsistent Q w.tree (some g)
      → IsConsistent Q w
      → IsConsistent Q (state (after_saving Q w r))
  after_saving-IsConsistent E g w (done s) same k h =
      same_dir-AreConsistent Q w.tree g s.generator same k
  after_saving-IsConsistent E g w (raised x s) same k h =
      same_dir-AreConsistent Q w.tree g s.generator same k

  add_to_tree-IsConsistent :
      (t : Text) (p : Place) (w : Window Q)
      → IsConsistent Q w
      → IsConsistent Q (state (add_to_tree Q t p w.tree w))
  add_to_tree-IsConsistent t p w h =
      subst (AreConsistent Q (state (add_to_tree Q t p w.tree w)).tree)
        (sym (generator-add_to_tree Q t p w.tree w))
        (add_to_tree-AreSynced Q t p w.tree w w.generator refl h.0, h.1)

  prepare_new-IsConsistent :
      (ui : HistoryDialog.Fields Q) (actions : List HistoryDialog.Action) (p : Place) (name : Text)
      (g : MapGenerator) (w : Window Q)
      → AreConsistent Q w.tree (some g)
      → IsConsistent Q (state (prepare_new_history_setting Q ui actions p name g w))
  unfolding prepare_new_history_setting add_history_setting
  prepare_new-IsConsistent ui actions p name g w h =
      add_to_tree-IsConsistent _ p _ (same_dir-AreConsistent Q w.tree g _ refl h)

  with_name-IsConsistent :
      (ui : HistoryDialog.Fields Q) (actions : List HistoryDialog.Action) (p : Place) (w : Window Q)
      (o : Option Text)
      → IsConsistent Q w
      → IsConsistent Q (state (with_name Q ui actions p w o))
  with_name-IsConsistent ui actions p w none h = h
  with_name-IsConsistent ui actions p w (some name) h = next w.generator refl
    where
      next :
          (o : Option MapGenerator)
          → w.generator ≡ o
          → IsConsistent Q (
              state (elim o [
                | none ↦
                    raised attribute_error (record w {
                      histories = Q.set_current_text (Q.add_item w.histories name) name;
                    })
                | some g ↦ prepare_new_history_setting Q ui actions p name g w
              ]))
      next none e = h
      next (some g) e =
          prepare_new-IsConsistent ui actions p name g w (subst (AreConsistent Q w.tree) e h)

  inputs_set-IsConsistent :
      (b : Bool) (p : Place) (w : Window Q) (o : Option (ViewDirectory Q))
      → w.tree ≡ o
      → IsConsistent Q w
      → IsConsistent Q (state (inputs_set Q b p w o))
  inputs_set-IsConsistent b p w none e h = h
  inputs_set-IsConsistent b p w (some view) e h =
      put_view-IsConsistent Q view _ (add_history_at-Alike Q _ p view) w e h

  touched-IsConsistent :
      (gesture : Gesture) (p : List ℕ) (n : Option ℕ) (w : Window Q) (o : Option (ViewDirectory Q))
      → w.tree ≡ o
      → IsConsistent Q w
      → IsConsistent Q
          (state (on_view Q (λ view u. done (put_view Q (gesture_at Q gesture p n view) u)) w o))
  touched-IsConsistent gesture p n w none e h = h
  touched-IsConsistent gesture p n w (some view) e h =
      put_view-IsConsistent Q view _ (gesture_at-Alike Q gesture p n view) w e h

  drop_on-IsConsistent :
      (p : List ℕ) (n : Option ℕ) (view : ViewDirectory Q) (w : Window Q) (path : Option Text)
      (target : Option ℕ)
      → w.tree ≡ some view
      → IsConsistent Q w
      → IsConsistent Q (state (drop_on Q p n view w path target))
  drop_on-IsConsistent p n view w path (some k) e h = h
  drop_on-IsConsistent p n view w none none e h = h
  drop_on-IsConsistent p n view w (some path) none e h =
      put_view-IsConsistent Q view _ (drop_at-Alike Q path p n view) w e h

  dropped-IsConsistent :
      (p q : List ℕ) (n target : Option ℕ) (w : Window Q) (o : Option (ViewDirectory Q))
      → w.tree ≡ o
      → IsConsistent Q w
      → IsConsistent Q
          (state (on_view Q (λ view u. drop_on Q p n view u (path_at Q q view) target) w o))
  dropped-IsConsistent p q n target w none e h = h
  dropped-IsConsistent p q n target w (some view) e h =
      drop_on-IsConsistent p n view w (path_at Q q view) target e h

  module _ (L : Etree) (open_xml : Text → Result L.Element) where
    handle-IsConsistent :
        (e : Event Q) (w : Window Q)
        → IsConsistent Q w
        → IsConsistent Q (state (handle Q L open_xml e w))
    unfolding handle history_added configure_encryption configure_lds_settings edit_history_setting
    handle-IsConsistent (Events.opened name) w h =
        open_file-IsConsistent Q L open_xml true false name w (λ no. cc) h
    handle-IsConsistent (Events.saved answer choice) w h =
        on_generator-IsConsistent _ w.generator w refl h (λ g k.
          after_saving-IsConsistent L.Element g w (save_file L answer choice g w.save_enabled)
            (save_file-LeavesDir L g answer choice w.save_enabled) k h)
    handle-IsConsistent (Events.saved_as answer choice) w h =
        on_generator-IsConsistent _ w.generator w refl h (λ g k.
          after_saving-IsConsistent L.Element g w (save_file_as L answer choice g w.save_enabled)
            (save_file_as-LeavesDir L g answer choice w.save_enabled) k h)
    handle-IsConsistent (Events.loaded name) w h = load_map_file-IsConsistent Q L open_xml name w h
    handle-IsConsistent (Events.switched_login b) w h = login_switched-IsConsistent b w h
    handle-IsConsistent (Events.typed_text field t) w h = configured-IsConsistent _ w h
    handle-IsConsistent (Events.chose_port z) w h = configured-IsConsistent _ w h
    handle-IsConsistent (Events.chose_log_level t) w h = configured-IsConsistent _ w h
    handle-IsConsistent (Events.switched_void b) w h = configured-IsConsistent _ w h
    handle-IsConsistent (Events.switched_encryption b) w h = encryption_switched-IsConsistent b w h
    handle-IsConsistent (Events.configured_encryption ui actions) w h =
        on_generator-IsConsistent _ w.generator w refl h
          (λ g k. same_dir-AreConsistent Q w.tree g _ refl k)
    handle-IsConsistent (Events.configured_lds ui actions) w h =
        on_generator-IsConsistent _ w.generator w refl h
          (λ g k. same_dir-AreConsistent Q w.tree g _ refl k)
    handle-IsConsistent (Events.edited_history object ui actions) w h =
        on_generator-IsConsistent _ w.generator w refl h
          (λ g k. same_dir-AreConsistent Q w.tree g _ refl k)
    handle-IsConsistent (Events.added_history ui actions p) w h =
        with_name-IsConsistent ui actions p w (new_name (Q.items w.histories)) h
    handle-IsConsistent (Events.set_inputs b p) w h = inputs_set-IsConsistent b p w w.tree refl h
    handle-IsConsistent (Events.touched gesture p n) w h =
        touched-IsConsistent gesture p n w w.tree refl h
    handle-IsConsistent (Events.dropped p n q target) w h =
        dropped-IsConsistent p q n target w w.tree refl h

    handle_all-IsConsistent :
        (es : List (Event Q)) (w : Window Q)
        → IsConsistent Q w
        → IsConsistent Q (handle_all Q L open_xml es w)
    unfolding handle_all
    handle_all-IsConsistent [] w h = h
    handle_all-IsConsistent (e ∷ es) w h =
        handle_all-IsConsistent es (state (handle Q L open_xml e w)) (handle-IsConsistent e w h)

    -- Whatever the user does from the start of the program on, also when handlers raise exceptions: if
    -- the tree of the window has items, they stand for exactly the objects of the generator's tree, and
    -- in that tree, if there is one, each path is the parent's path, a slash and the name, each level is
    -- one more than the parent's, and each full name is the directory's path, a slash and the
    -- variable's name.
    pub session-IsConsistent :
        (input : Option Text) (no_input yes_reply : Bool) (name : Text) (w : Window Q)
        (es : List (Event Q))
        → w.tree ≡ none
        → w.generator ≡ none
        → IsConsistent Q
            (handle_all Q L open_xml es (new_window Q L open_xml input no_input yes_reply name w))
    session-IsConsistent input no_input yes_reply name w es empty fresh =
        handle_all-IsConsistent es (new_window Q L open_xml input no_input yes_reply name w)
          (new_window-IsConsistent Q L open_xml input no_input yes_reply name w empty fresh)
