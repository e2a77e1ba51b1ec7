-- ===== src/Form/HistoryDialog.antt =====
-- `HistorySettingsDialog`. The settings are objects that the dialog shares with the generator's list of
-- settings and with the items of the combo box: objects are numbers, and a store gives their
-- attributes.
pub mod Laws
use control_system_adapter_o.Prelude.{
  ℕ, ◌==◌, Bool, true, false, not, ◌||◌, Option, none, some, List, [], ◌∷◌, if◌then◌else◌,
}
use control_system_adapter_o.Prelude.Text.{Text, codes, text_eq}
use control_system_adapter_o.Prelude.Number.{ℤ}
use control_system_adapter_o.History.{HistorySetting, circular_buffer, influx_db}
use control_system_adapter_o.Form.Qt.{Qt}

abbrev pub Store : Type 0
Store = ℕ → HistorySetting

unfoldable pub put : Store → ℕ → HistorySetting → Store
put store k h n = if n == k then h else store n

-- `next((x for x in self.histories if x.name == text), None) != None`
unfoldable pub is_taken : Store → List ℕ → Text → Bool
unfolding text_eq
is_taken store [] t = false
is_taken store (n ∷ ns) t = text_eq (store n).name t || is_taken store ns t

module _ (Q : Qt) where
  pub record Fields : Type 0 where
    pub history_name : Q.LineEdit
    pub entries_per_response : Q.SpinBox
    pub buffer_length : Q.SpinBox
    pub sampling_interval : Q.SpinBox
    pub backend : Q.ComboBox
    pub buffer_length_enabled : Bool
    pub ok_enabled : Bool

  -- `self.data` is an object of the store, `self.histories` a list of them.
  pub record Dialog : Type 0 where
    pub store : Store
    pub object : ℕ
    pub histories : List ℕ
    pub combo : Q.ComboBox
    pub edit : Bool
    pub fields : Fields

  abbrev pub shown_backend : Text → Text
  shown_backend [] = circular_buffer
  shown_backend (c ∷ t) = c ∷ t

  -- `HistorySettingsDialog(data, histories, edit)`, for the object of the current item
  unfoldable pub new_dialog : Fields → Store → ℕ → Q.ComboBox → List ℕ → Bool → Dialog
  unfolding text_eq
  new_dialog ui store object combo histories edit = record {
    store = store;
    object = object;
    histories = histories;
    combo = combo;
    edit = edit;
    fields = record ui {
      history_name = Q.set_text ui.history_name (store object).name;
      entries_per_response =
          Q.set_value ui.entries_per_response (store object).entries_per_response;
      buffer_length = Q.set_value ui.buffer_length (store object).buffer_length;
      sampling_interval = Q.set_value ui.sampling_interval (store object).interval;
      backend = Q.set_current_text ui.backend (shown_backend (store object).backend_type);
      buffer_length_enabled = not (text_eq (store object).backend_type influx_db);
    };
  }

  abbrev pub accept_name : Dialog → Dialog
  accept_name d = record d {
    fields = record d.fields { ok_enabled = true };
    store =
        put d.store d.object (record (d.store d.object) { name = Q.text d.fields.history_name });
    combo = Q.set_item_text d.combo (Q.text d.fields.history_name);
  }

  unfoldable pub check_name_exists : Dialog → Dialog
  unfolding is_taken put text_eq
  check_name_exists d =
      if not d.edit || not (text_eq (Q.current_text d.combo) (Q.text d.fields.history_name))
      then (if is_taken d.store d.histories (Q.text d.fields.history_name)
          then record d { fields = record d.fields { ok_enabled = false } }
          else accept_name d)
      else d

  unfoldable pub update_data : Dialog → Dialog
  unfolding put text_eq
  update_data d = record d {
    store = put d.store d.object (record (d.store d.object) {
      entries_per_response = Q.value d.fields.entries_per_response;
      interval = Q.value d.fields.sampling_interval;
      buffer_length = Q.value d.fields.buffer_length;
      backend_type = Q.current_text d.fields.backend;
    });
    fields = record d.fields {
      buffer_length_enabled = not (text_eq (Q.current_text d.fields.backend) influx_db);
    };
  }

-- What the user does: a name is entered, or another field is changed.
pub data Action : Type 0 where
  enter_name : Text → Action
  edit_entries edit_buffer_length edit_interval : ℤ → Action
  choose_backend : Text → Action

module _ (Q : Qt) where
  abbrev pub edited : Action → Fields Q → Fields Q
  edited (enter_name t) f = record f { history_name = Q.set_text f.history_name t }
  edited (edit_entries z) f = record f {
    entries_per_response = Q.set_value f.entries_per_response z;
  }
  edited (edit_buffer_length z) f = record f { buffer_length = Q.set_value f.buffer_length z }
  edited (edit_interval z) f = record f { sampling_interval = Q.set_value f.sampling_interval z }
  edited (choose_backend t) f = record f { backend = Q.set_current_text f.backend t }

  abbrev pub edit_fields : Action → Dialog Q → Dialog Q
  edit_fields a d = record d { fields = edited a d.fields }

  -- The handler that the signal of the field calls
  unfoldable pub act : Action → Dialog Q → Dialog Q
  unfolding check_name_exists update_data
  act (enter_name t) d = check_name_exists Q (edit_fields (enter_name t) d)
  act a d = update_data Q (edit_fields a d)

  unfoldable pub act_all : List Action → Dialog Q → Dialog Q
  unfolding act
  act_all [] d = d
  act_all (a ∷ actions) d = act_all actions (act a d)
