-- ===== src/Form/View/Same/Top.antt =====
-- What starts at the top item leaves the objects of the tree, or their names and places.
use control_system_adapter_o.Prelude.{
  ℕ, zero, suc, ◌≡◌, refl, ap, Option, none, some, List, [], ◌∷◌,
}
use control_system_adapter_o.Prelude.Text.{Text}
use control_system_adapter_o.Variable.{XmlVar}
use control_system_adapter_o.Form.Qt.{Qt}
use control_system_adapter_o.Directory as Model
use control_system_adapter_o.Form.View.{
  Row, ViewDirectory, folder, ViewDirectories, nil, cons, objects, shown, shown_all,
}
use control_system_adapter_o.Form.View.History.{add_combo_entry, add_history_for_inputs}
use control_system_adapter_o.Form.View.Target.{at_directory, at_child, at_number, on_variable}
use control_system_adapter_o.Form.View.Top.{
  Place, entry_added, entry_below, add_entry_at, input_chosen, history_below, add_history_at,
}
use control_system_adapter_o.Form.View.Same.{Alike, shown-add_combo_entry}
use control_system_adapter_o.Form.View.Same.Gestures.{
  add_history_for_inputs-Alike, at_directory-Alike, on_variable-Alike, input-AlikeVar,
}

module _ (Q : Qt) where
  module _ (f : ViewDirectory Q → ViewDirectory Q)
      (keeps : (d : ViewDirectory Q) → shown Q (f d) ≡ shown Q d) where
    mutual
      unfolding at_directory shown

      shown-at_directory :
          (p : List ℕ) (d : ViewDirectory Q) → shown Q (at_directory Q f p d) ≡ shown Q d
      shown-at_directory [] d = keeps d
      shown-at_directory (n ∷ p) (folder r i ds vs) =
          ap (λ es. Model.directory i es (objects Q vs)) (shown_all-at_child n p ds)

      shown_all-at_child :
          (n : ℕ) (p : List ℕ) (ds : ViewDirectories Q)
          → shown_all Q (at_child Q f n p ds) ≡ shown_all Q ds
      shown_all-at_child n p nil = refl
      shown_all-at_child zero p (cons d ds) =
          ap (λ e. Model.cons e (shown_all Q ds)) (shown-at_directory p d)
      shown_all-at_child (suc n) p (cons d ds) =
          ap (Model.cons (shown Q d)) (shown_all-at_child n p ds)

  objects-at_number :
      (t : Text) (n : ℕ) (vs : List (Row Q × XmlVar))
      → objects Q (at_number Q (entry_added Q t) n vs) ≡ objects Q vs
  unfolding at_number
  objects-at_number t n [] = refl
  objects-at_number t zero ((r, v) ∷ vs) = refl
  objects-at_number t (suc n) ((r, v) ∷ vs) = ap (λ us. v ∷ us) (objects-at_number t n vs)

  shown-on_variable :
      (t : Text) (n : ℕ) (d : ViewDirectory Q)
      → shown Q (on_variable Q (entry_added Q t) n d) ≡ shown Q d
  unfolding on_variable shown
  shown-on_variable t n (folder r i ds vs) =
      ap (Model.directory i (shown_all Q ds)) (objects-at_number t n vs)

  shown-entry_below :
      (t : Text) (p : List ℕ) (o : Option ℕ) (d : ViewDirectory Q)
      → shown Q (entry_below Q t p o d) ≡ shown Q d
  shown-entry_below t p none d =
      shown-at_directory (add_combo_entry Q t) (shown-add_combo_entry Q t) p d
  shown-entry_below t p (some n) d =
      shown-at_directory (on_variable Q (entry_added Q t) n) (shown-on_variable t n) p d

  pub shown-add_entry_at :
      (t : Text) (p : Place) (d : ViewDirectory Q) → shown Q (add_entry_at Q t p d) ≡ shown Q d
  unfolding add_entry_at
  shown-add_entry_at t p d = shown-entry_below t p.directory_at p.variable_at d

  history_below-Alike :
      (t : Text) (p : List ℕ) (o : Option ℕ) (d : ViewDirectory Q)
      → Alike Q d (history_below Q t p o d)
  history_below-Alike t p none d =
      at_directory-Alike Q (add_history_for_inputs Q t) (add_history_for_inputs-Alike Q t) p d
  history_below-Alike t p (some n) d =
      at_directory-Alike Q (on_variable Q (input_chosen Q t) n)
        (on_variable-Alike Q (input_chosen Q t) (λ x. input-AlikeVar Q x.0.is_input t x) n) p d

  pub add_history_at-Alike :
      (t : Text) (p : Place) (d : ViewDirectory Q) → Alike Q d (add_history_at Q t p d)
  unfolding add_history_at
  add_history_at-Alike t p d = history_below-Alike t p.directory_at p.variable_at d
