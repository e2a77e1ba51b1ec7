-- ===== src/Form/View/History.antt =====
-- The history column of the tree: `_setHistoryItem`, `addComboEntry`, `updateHistories` and
-- `addHistoryForInputs`.
use control_system_adapter_o.Prelude.{
  Bool, true, false, not, Option, none, some, List, [], ◌∷◌, if◌then◌else◌,
}
use control_system_adapter_o.Prelude.Text.{Text, text_eq}
use control_system_adapter_o.Variable.{XmlVar}
use control_system_adapter_o.Form.Qt.{Qt}
use control_system_adapter_o.Form.View.{Row, ViewDirectory, folder, ViewDirectories, nil, cons}
use control_system_adapter_o.Form.View.Rows.{no_history}
use control_system_adapter_o.Form.View.Propagate.{Change, change_item, change_variable}

-- The setting that the text of an item of the combo box stands for
unfoldable pub history_of : Text → Option Text
unfolding text_eq
history_of t = if text_eq t no_history then none else some t

-- `if var.historizing`: the children's boxes are disabled under a directory with a history.
abbrev pub is_history : Option Text → Bool
is_history none = false
is_history (some []) = false
is_history (some (_ ∷ _)) = true

module _ (Q : Qt) where
  -- `combo.setCurrentText(t)` with `_setHistoryItem`
  unfoldable pub history_change : Text → Change Q
  unfolding text_eq history_of
  history_change t = record {
    is_there =
        λ r. text_eq (Q.current_text (Q.set_current_text r.history t)) (Q.current_text r.history);
    set_widget = λ r. record r { history = Q.set_current_text r.history t };
    set_directory = λ empty i. record i { historizing = history_of t };
    set_variable = λ v. record v { historizing = history_of t };
    after_child = λ r. record r { history_enabled = not (is_history (history_of t)) };
  }

  unfoldable pub choose_history : Text → ViewDirectory Q → ViewDirectory Q
  unfolding history_change change_item
  choose_history t d = change_item Q (history_change t) d

  unfoldable pub choose_variable_history : Text → Row Q × XmlVar → Row Q × XmlVar
  unfolding history_change change_variable
  choose_variable_history t v = change_variable Q (history_change t) v

  abbrev pub add_entry : Text → Row Q → Row Q
  add_entry t r = record r { history = Q.add_item r.history t }

  abbrev pub add_variable_entries : Text → List (Row Q × XmlVar) → List (Row Q × XmlVar)
  add_variable_entries t [] = []
  add_variable_entries t ((r, v) ∷ vs) = (add_entry t r, v) ∷ add_variable_entries t vs

  unfoldable mutual
    pub add_combo_entry : Text → ViewDirectory Q → ViewDirectory Q
    add_combo_entry t (folder r i ds vs) =
        folder (add_entry t r) i (add_combo_entries t ds) (add_variable_entries t vs)

    pub add_combo_entries : Text → ViewDirectories Q → ViewDirectories Q
    add_combo_entries t nil = nil
    add_combo_entries t (cons d ds) = cons (add_combo_entry t d) (add_combo_entries t ds)

  -- What `updateHistories` does to a variable's item
  unfoldable pub update_variable_history : Row Q × XmlVar → Row Q × XmlVar
  unfolding choose_variable_history
  update_variable_history (r, v) = elim v.historizing [
    | none ↦ (r, v)
    | some t ↦ choose_variable_history t (r, v)
  ]

  unfoldable pub update_variable_histories : List (Row Q × XmlVar) → List (Row Q × XmlVar)
  unfolding update_variable_history
  update_variable_histories [] = []
  update_variable_histories (v ∷ vs) = update_variable_history v ∷ update_variable_histories vs

  abbrev pub updated : Option Text → ViewDirectory Q → ViewDirectory Q → ViewDirectory Q
  updated none d below = below
  updated (some t) d below = choose_history t d

  -- A directory with a history passes it on; otherwise its children are looked at.
  unfoldable mutual
    unfolding choose_history update_variable_histories

    pub update_histories : ViewDirectory Q → ViewDirectory Q
    update_histories (folder r i ds vs) =
        updated i.historizing (folder r i ds vs)
          (folder r i (update_all_histories ds) (update_variable_histories vs))

    pub update_all_histories : ViewDirectories Q → ViewDirectories Q
    update_all_histories nil = nil
    update_all_histories (cons d ds) = cons (update_histories d) (update_all_histories ds)

  -- `addHistoryForInputs`, where the text is the current one of the list of settings, or stands for no
  -- history if the button is not checked
  unfoldable pub input_histories : Text → List (Row Q × XmlVar) → List (Row Q × XmlVar)
  unfolding choose_variable_history
  input_histories t [] = []
  input_histories t ((r, v) ∷ vs) =
      (if r.is_input then choose_variable_history t (r, v) else (r, v)) ∷ input_histories t vs

  unfoldable mutual
    unfolding input_histories

    pub add_history_for_inputs : Text → ViewDirectory Q → ViewDirectory Q
    add_history_for_inputs t (folder r i ds vs) =
        folder r i (add_all_for_inputs t ds) (input_histories t vs)

    pub add_all_for_inputs : Text → ViewDirectories Q → ViewDirectories Q
    add_all_for_inputs t nil = nil
    add_all_for_inputs t (cons d ds) = cons (add_history_for_inputs t d) (add_all_for_inputs t ds)
