-- ===== src/Form/View/Top.antt =====
-- The item that the tree widget shows at its top, `itemAt(0, 0)`, which is not the root when the user has
-- scrolled: `addComboEntry` and `addHistoryForInputs` start there.
use control_system_adapter_o.Prelude.{ℕ, Option, none, some, List, [], if◌then◌else◌}
use control_system_adapter_o.Prelude.Text.{Text}
use control_system_adapter_o.Variable.{XmlVar}
use control_system_adapter_o.Form.Qt.{Qt}
use control_system_adapter_o.Form.View.{Row, ViewDirectory}
use control_system_adapter_o.Form.View.History.{
  add_entry, add_combo_entry, choose_variable_history, add_history_for_inputs,
}
use control_system_adapter_o.Form.View.Target.{at_directory, on_variable}

-- The place of a directory's item, and the number of a variable there
pub record Place : Type 0 where
  pub directory_at : List ℕ
  pub variable_at : Option ℕ

abbrev pub root_place : Place
root_place = record { directory_at = []; variable_at = none }

module _ (Q : Qt) where
  abbrev pub entry_added : Text → Row Q × XmlVar → Row Q × XmlVar
  entry_added t (r, v) = (add_entry Q t r, v)

  abbrev pub input_chosen : Text → Row Q × XmlVar → Row Q × XmlVar
  input_chosen t (r, v) = if r.is_input then choose_variable_history Q t (r, v) else (r, v)

  abbrev pub entry_below : Text → List ℕ → Option ℕ → ViewDirectory Q → ViewDirectory Q
  entry_below t p none d = at_directory Q (add_combo_entry Q t) p d
  entry_below t p (some n) d = at_directory Q (on_variable Q (entry_added t) n) p d

  unfoldable pub add_entry_at : Text → Place → ViewDirectory Q → ViewDirectory Q
  unfolding at_directory on_variable add_combo_entry
  add_entry_at t p d = entry_below t p.directory_at p.variable_at d

  abbrev pub history_below : Text → List ℕ → Option ℕ → ViewDirectory Q → ViewDirectory Q
  history_below t p none d = at_directory Q (add_history_for_inputs Q t) p d
  history_below t p (some n) d = at_directory Q (on_variable Q (input_chosen t) n) p d

  unfoldable pub add_history_at : Text → Place → ViewDirectory Q → ViewDirectory Q
  unfolding at_directory on_variable add_history_for_inputs choose_variable_history
  add_history_at t p d = history_below t p.directory_at p.variable_at d
