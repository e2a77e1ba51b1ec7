-- ===== src/Form/View/Same.antt =====
-- What the operations on the items of the tree keep of its objects: their nesting, names, paths and
-- levels.
pub mod Gestures
pub mod Top
use control_system_adapter_o.Prelude.{
  ℕ, zero, suc, ◌≡◌, refl, ap, ◌∙◌, Bool, true, false, Option, none, some, List, [], ◌∷◌,
  if◌then◌else◌, Bool-cases, inl, inr, arith,
}
use control_system_adapter_o.Prelude.Text.{Text, text_eq}
use control_system_adapter_o.Variable.{XmlVar}
use control_system_adapter_o.Directory as Model
use control_system_adapter_o.Directory.{DirectoryInfo, XmlDirectory, directory}
use control_system_adapter_o.Directory.Invariant.{KeepsPlace, KeepsName}
use control_system_adapter_o.Directory.SameTree.{
  SamePlace, SameVars, SameTree, SameTrees, SameVars-refl, SameTree-refl, SameTrees-refl,
}
use control_system_adapter_o.Form.Qt.{Qt}
use control_system_adapter_o.Form.View.{
  Row, ViewDirectory, folder, ViewDirectories, nil, cons, objects, shown, shown_all, with_variables,
  with_objects, with_all_objects,
}
use control_system_adapter_o.Form.View.Edit as Edit
use control_system_adapter_o.Form.View.Edit.{Column, update_variable_item, update_directory_item}
use control_system_adapter_o.Form.View.Propagate.{
  Change, change_item, change_children, change_variable, change_variables, is_empty, with_row,
}
use control_system_adapter_o.Form.View.Exclude.{exclude_change, map_directory}
use control_system_adapter_o.Form.View.History.{
  history_change, choose_history, add_variable_entries, add_combo_entry, add_combo_entries,
  update_variable_history, update_variable_histories, updated, update_histories,
  update_all_histories, input_histories, add_history_for_inputs, add_all_for_inputs,
}
use control_system_adapter_o.Form.View.Target as Target
use control_system_adapter_o.Form.View.Target.{
  Gesture, at_directory, at_child, at_number, on_variable, on_directory, directory_gesture,
  variable_gesture, gesture_at,
}

module _ (Q : Qt) where
  -- The items take the objects of a tree of the same nesting.
  objects-with_variables :
      (rows : List (Row Q × XmlVar)) (vs : List XmlVar)
      → SameVars (objects Q rows) vs
      → objects Q (with_variables Q rows vs) ≡ vs
  objects-with_variables [] [] h = refl
  objects-with_variables [] (_ ∷ _) h = absurd h
  objects-with_variables ((r, u) ∷ rows) [] h = absurd h
  objects-with_variables ((r, u) ∷ rows) (v ∷ vs) h =
      ap (λ l. v ∷ l) (objects-with_variables rows vs h.2)

  mutual
    unfolding shown with_objects

    pub shown-with_objects :
        (view : ViewDirectory Q) (d : XmlDirectory)
        → SameTree (shown Q view) d
        → shown Q (with_objects Q view d) ≡ d
    shown-with_objects (folder r i views rows) (directory j ds vs) h =
        ap (λ l. directory j l (objects Q (with_variables Q rows vs)))
          (shown_all-with_all_objects views ds h.1)
        ∙ ap (directory j ds) (objects-with_variables rows vs h.2)

    shown_all-with_all_objects :
        (views : ViewDirectories Q) (ds : Model.Directories)
        → SameTrees (shown_all Q views) ds
        → shown_all Q (with_all_objects Q views ds) ≡ ds
    shown_all-with_all_objects nil Model.nil h = refl
    shown_all-with_all_objects nil (Model.cons _ _) h = absurd h
    shown_all-with_all_objects (cons _ _) Model.nil h = absurd h
    shown_all-with_all_objects (cons view views) (Model.cons d ds) h =
        ap (λ x. Model.cons x (shown_all Q (with_all_objects Q views ds)))
          (shown-with_objects view d h.0)
        ∙ ap (Model.cons d) (shown_all-with_all_objects views ds h.1)

  -- A new entry of the boxes leaves the objects alone.
  objects-add_variable_entries :
      (t : Text) (rows : List (Row Q × XmlVar))
      → objects Q (add_variable_entries Q t rows) ≡ objects Q rows
  objects-add_variable_entries t [] = refl
  objects-add_variable_entries t ((r, v) ∷ rows) =
      ap (λ l. v ∷ l) (objects-add_variable_entries t rows)

  mutual
    unfolding shown add_combo_entry

    pub shown-add_combo_entry :
        (t : Text) (view : ViewDirectory Q) → shown Q (add_combo_entry Q t view) ≡ shown Q view
    shown-add_combo_entry t (folder r i views rows) =
        ap (λ l. directory i l (objects Q (add_variable_entries Q t rows)))
          (shown_all-add_combo_entries t views)
        ∙ ap (directory i (shown_all Q views)) (objects-add_variable_entries t rows)

    shown_all-add_combo_entries :
        (t : Text) (views : ViewDirectories Q)
        → shown_all Q (add_combo_entries Q t views) ≡ shown_all Q views
    shown_all-add_combo_entries t nil = refl
    shown_all-add_combo_entries t (cons view views) =
        ap (λ x. Model.cons x (shown_all Q (add_combo_entries Q t views)))
          (shown-add_combo_entry t view)
        ∙ ap (Model.cons (shown Q view)) (shown_all-add_combo_entries t views)

  -- The two items have the same nesting below them, and objects of the same names, paths and levels.
  abbrev pub Alike : ViewDirectory Q → ViewDirectory Q → Type 0
  Alike d e = SameTree (shown Q d) (shown Q e)

  abbrev pub AlikeAll : ViewDirectories Q → ViewDirectories Q → Type 0
  AlikeAll ds es = SameTrees (shown_all Q ds) (shown_all Q es)

  abbrev pub AlikeVars : List (Row Q × XmlVar) → List (Row Q × XmlVar) → Type 0
  AlikeVars vs us = SameVars (objects Q vs) (objects Q us)

  abbrev pub AlikeVar : Row Q × XmlVar → Row Q × XmlVar → Type 0
  AlikeVar a b = (b.1.name ≡ a.1.name) × (b.1.full_name ≡ a.1.full_name)

  -- The changes that run through the items below
  pub record IsModest (c : Change Q) : Type 0 where
    pub directory : (b : Bool) → KeepsPlace (c.set_directory b)
    pub variable : KeepsName c.set_variable

  module _ (c : Change Q) (modest : IsModest c) where
    pub change_variable-AlikeVar : (x : Row Q × XmlVar) → AlikeVar x (change_variable Q c x)
    unfolding change_variable
    change_variable-AlikeVar (r, v) =
        ground (arith, modest.variable.name v, modest.variable.full_name v)

    change_variables-AlikeVars :
        (vs : List (Row Q × XmlVar)) → AlikeVars vs (change_variables Q c vs)
    unfolding change_variables
    change_variables-AlikeVars [] = tt
    change_variables-AlikeVars ((r, v) ∷ vs) = (
      (change_variable-AlikeVar (r, v)).0,
      (change_variable-AlikeVar (r, v)).1,
      change_variables-AlikeVars vs,
    )

    with_row-Alike :
        (f : Row Q → Row Q) (d e : ViewDirectory Q) → Alike d e → Alike d (with_row Q f e)
    unfolding shown
    with_row-Alike f d (folder r i ds vs) h = h

    mutual
      unfolding change_item shown

      pub change_item-Alike : (d : ViewDirectory Q) → Alike d (change_item Q c d)
      change_item-Alike (folder r i ds vs) = elim (Bool-cases (c.is_there r)) [
        | inl there ↦ rw there (SameTree-refl (shown Q (folder r i ds vs)))
        | inr new ↦ rw new (
          (
            (modest.directory (is_empty Q ds vs)).path i,
            (modest.directory (is_empty Q ds vs)).name i,
            (modest.directory (is_empty Q ds vs)).level i,
          ),
          change_children-AlikeAll ds,
          change_variables-AlikeVars vs,
        )
      ]

      change_children-AlikeAll : (ds : ViewDirectories Q) → AlikeAll ds (change_children Q c ds)
      change_children-AlikeAll nil = tt
      change_children-AlikeAll (cons d ds) = (
        with_row-Alike c.after_child d (change_item Q c d) (change_item-Alike d),
        change_children-AlikeAll ds,
      )

  pub exclude_change-IsModest : (b : Bool) → IsModest (exclude_change Q b)
  unfolding exclude_change
  exclude_change-IsModest b = record {
    directory = λ empty. record {
      path = λ i. ground arith;
      name = λ i. ground arith;
      level = λ i. ground arith;
    };
    variable = record { name = λ v. refl; full_name = λ v. refl };
  }

  pub history_change-IsModest : (t : Text) → IsModest (history_change Q t)
  unfolding history_change
  history_change-IsModest t = record {
    directory = λ empty. record { path = λ i. refl; name = λ i. refl; level = λ i. refl };
    variable = record { name = λ v. refl; full_name = λ v. refl };
  }
