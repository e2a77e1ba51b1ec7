-- ===== src/Form/View/Same/Gestures.antt =====
-- The gestures of the user, the histories of a map file and those of the inputs keep the nesting, names,
-- paths and levels of the objects.
use control_system_adapter_o.Prelude.{
  ℕ, zero, suc, refl, Bool, true, false, Option, none, some, List, [], ◌∷◌, if◌then◌else◌,
}
use control_system_adapter_o.Prelude.Text.{Text}
use control_system_adapter_o.Variable.{XmlVar}
use control_system_adapter_o.Directory.{DirectoryInfo}
use control_system_adapter_o.Directory.SameTree.{
  SamePlace, SameVars-refl, SameTree-refl, SameTrees-refl,
}
use control_system_adapter_o.Form.Qt.{Qt}
use control_system_adapter_o.Form.View.{
  Row, ViewDirectory, folder, ViewDirectories, nil, cons, objects, shown, shown_all,
}
use control_system_adapter_o.Form.View.Edit as Edit
use control_system_adapter_o.Form.View.Edit.{
  Column, update_variable_item, update_directory_item, drop_variable, drop_directory,
}
use control_system_adapter_o.Form.View.Exclude.{exclude_change, map_directory, map_item}
use control_system_adapter_o.Form.View.History.{
  history_change, choose_history, choose_variable_history, update_variable_history,
  update_variable_histories, updated, update_histories, update_all_histories, input_histories,
  add_history_for_inputs, add_all_for_inputs,
}
use control_system_adapter_o.Form.View.Target as Target
use control_system_adapter_o.Form.View.Target.{
  Gesture, at_directory, at_child, at_number, on_variable, on_directory, directory_gesture,
  variable_gesture, gesture_at, drop_at,
}
use control_system_adapter_o.Form.View.Same.{
  Alike, AlikeAll, AlikeVars, AlikeVar, change_variable-AlikeVar, change_item-Alike,
  exclude_change-IsModest, history_change-IsModest,
}

module _ (Q : Qt) where
  choose_history-Alike : (t : Text) (d : ViewDirectory Q) → Alike Q d (choose_history Q t d)
  unfolding choose_history
  choose_history-Alike t d =
      change_item-Alike Q (history_change Q t) (history_change-IsModest Q t) d

  choose_variable_history-AlikeVar :
      (t : Text) (x : Row Q × XmlVar) → AlikeVar Q x (choose_variable_history Q t x)
  unfolding choose_variable_history
  choose_variable_history-AlikeVar t x =
      change_variable-AlikeVar Q (history_change Q t) (history_change-IsModest Q t) x

  chosen-AlikeVar :
      (o : Option Text) (x : Row Q × XmlVar)
      → AlikeVar Q x (elim o [ none ↦ x | some t ↦ choose_variable_history Q t x ])
  chosen-AlikeVar none x = (refl, refl)
  chosen-AlikeVar (some t) x = choose_variable_history-AlikeVar t x

  update_variable_histories-AlikeVars :
      (vs : List (Row Q × XmlVar)) → AlikeVars Q vs (update_variable_histories Q vs)
  unfolding update_variable_histories update_variable_history
  update_variable_histories-AlikeVars [] = tt
  update_variable_histories-AlikeVars ((r, v) ∷ vs) = (
    (chosen-AlikeVar v.historizing (r, v)).0,
    (chosen-AlikeVar v.historizing (r, v)).1,
    update_variable_histories-AlikeVars vs,
  )

  updated-Alike :
      (o : Option Text) (d below : ViewDirectory Q)
      → Alike Q d below
      → Alike Q d (updated Q o d below)
  updated-Alike none d below h = h
  updated-Alike (some t) d below h = choose_history-Alike t d

  mutual
    unfolding update_histories shown

    pub update_histories-Alike : (d : ViewDirectory Q) → Alike Q d (update_histories Q d)
    update_histories-Alike (folder r i ds vs) =
        updated-Alike i.historizing (folder r i ds vs)
          (folder r i (update_all_histories Q ds) (update_variable_histories Q vs))
          ((refl, refl, refl), update_all-AlikeAll ds, update_variable_histories-AlikeVars vs)

    update_all-AlikeAll : (ds : ViewDirectories Q) → AlikeAll Q ds (update_all_histories Q ds)
    update_all-AlikeAll nil = tt
    update_all-AlikeAll (cons d ds) = (update_histories-Alike d, update_all-AlikeAll ds)

  pub input-AlikeVar :
      (b : Bool) (t : Text) (x : Row Q × XmlVar)
      → AlikeVar Q x (if b then choose_variable_history Q t x else x)
  input-AlikeVar true t x = choose_variable_history-AlikeVar t x
  input-AlikeVar false t x = (refl, refl)

  input_histories-AlikeVars :
      (t : Text) (vs : List (Row Q × XmlVar)) → AlikeVars Q vs (input_histories Q t vs)
  unfolding input_histories
  input_histories-AlikeVars t [] = tt
  input_histories-AlikeVars t ((r, v) ∷ vs) = (
    (input-AlikeVar r.is_input t (r, v)).0,
    (input-AlikeVar r.is_input t (r, v)).1,
    input_histories-AlikeVars t vs,
  )

  mutual
    unfolding add_history_for_inputs shown

    pub add_history_for_inputs-Alike :
        (t : Text) (d : ViewDirectory Q) → Alike Q d (add_history_for_inputs Q t d)
    add_history_for_inputs-Alike t (folder r i ds vs) =
        ((refl, refl, refl), add_all_for_inputs-AlikeAll t ds, input_histories-AlikeVars t vs)

    add_all_for_inputs-AlikeAll :
        (t : Text) (ds : ViewDirectories Q) → AlikeAll Q ds (add_all_for_inputs Q t ds)
    add_all_for_inputs-AlikeAll t nil = tt
    add_all_for_inputs-AlikeAll t (cons d ds) =
        (add_history_for_inputs-Alike t d, add_all_for_inputs-AlikeAll t ds)

  update_directory_item-SamePlace :
      (c : Column) (t : Text) (x : Row Q × DirectoryInfo)
      → SamePlace x.1 (update_directory_item Q c t x).1
  unfolding update_directory_item
  update_directory_item-SamePlace Edit.name t (r, i) = (refl, refl, refl)
  update_directory_item-SamePlace Edit.unit t (r, i) = (refl, refl, refl)
  update_directory_item-SamePlace Edit.description t (r, i) = (refl, refl, refl)
  update_directory_item-SamePlace Edit.destination t (r, i) = (refl, refl, refl)

  update_variable_item-AlikeVar :
      (c : Column) (t : Text) (x : Row Q × XmlVar) → AlikeVar Q x (update_variable_item Q c t x)
  unfolding update_variable_item
  update_variable_item-AlikeVar Edit.name t (r, v) = (refl, refl)
  update_variable_item-AlikeVar Edit.unit t (r, v) = (refl, refl)
  update_variable_item-AlikeVar Edit.description t (r, v) = (refl, refl)
  update_variable_item-AlikeVar Edit.destination t (r, v) = (refl, refl)

  on_directory-Alike :
      (f : Row Q × DirectoryInfo → Row Q × DirectoryInfo)
      → ((x : Row Q × DirectoryInfo) → SamePlace x.1 (f x).1)
      → (d : ViewDirectory Q) → Alike Q d (on_directory Q f d)
  unfolding on_directory shown
  on_directory-Alike f keeps (folder r i ds vs) =
      (keeps (r, i), SameTrees-refl (shown_all Q ds), SameVars-refl (objects Q vs))

  drop_directory-SamePlace :
      (t : Text) (x : Row Q × DirectoryInfo) → SamePlace x.1 (drop_directory Q t x).1
  unfolding drop_directory update_directory_item
  drop_directory-SamePlace t (r, i) = (refl, refl, refl)

  directory_gesture-Alike :
      (g : Gesture) (d : ViewDirectory Q) → Alike Q d (directory_gesture Q g d)
  unfolding directory_gesture map_directory
  directory_gesture-Alike (Target.typed c t) d =
      on_directory-Alike (update_directory_item Q c t) (update_directory_item-SamePlace c t) d
  directory_gesture-Alike (Target.set_exclude b) d =
      change_item-Alike Q (exclude_change Q b) (exclude_change-IsModest Q b) d
  directory_gesture-Alike (Target.chose_history t) d = choose_history-Alike t d

  variable_gesture-AlikeVar :
      (g : Gesture) (x : Row Q × XmlVar) → AlikeVar Q x (variable_gesture Q g x)
  unfolding variable_gesture map_item
  variable_gesture-AlikeVar (Target.typed c t) x = update_variable_item-AlikeVar c t x
  variable_gesture-AlikeVar (Target.set_exclude b) x =
      change_variable-AlikeVar Q (exclude_change Q b) (exclude_change-IsModest Q b) x
  variable_gesture-AlikeVar (Target.chose_history t) x = choose_variable_history-AlikeVar t x

  at_number-AlikeVars :
      (f : Row Q × XmlVar → Row Q × XmlVar)
      → ((x : Row Q × XmlVar) → AlikeVar Q x (f x))
      → (n : ℕ) (vs : List (Row Q × XmlVar)) → AlikeVars Q vs (at_number Q f n vs)
  unfolding at_number
  at_number-AlikeVars f keeps n [] = tt
  at_number-AlikeVars f keeps zero ((r, v) ∷ vs) =
      ((keeps (r, v)).0, (keeps (r, v)).1, SameVars-refl (objects Q vs))
  at_number-AlikeVars f keeps (suc n) ((r, v) ∷ vs) = (refl, refl, at_number-AlikeVars f keeps n vs)

  pub on_variable-Alike :
      (f : Row Q × XmlVar → Row Q × XmlVar)
      → ((x : Row Q × XmlVar) → AlikeVar Q x (f x))
      → (n : ℕ) (d : ViewDirectory Q) → Alike Q d (on_variable Q f n d)
  unfolding on_variable shown
  on_variable-Alike f keeps n (folder r i ds vs) =
      ((refl, refl, refl), SameTrees-refl (shown_all Q ds), at_number-AlikeVars f keeps n vs)

  module _ (f : ViewDirectory Q → ViewDirectory Q)
      (keeps : (d : ViewDirectory Q) → Alike Q d (f d)) where
    mutual
      unfolding at_directory shown

      pub at_directory-Alike : (p : List ℕ) (d : ViewDirectory Q) → Alike Q d (at_directory Q f p d)
      at_directory-Alike [] d = keeps d
      at_directory-Alike (n ∷ p) (folder r i ds vs) =
          ((refl, refl, refl), at_child-AlikeAll n p ds, SameVars-refl (objects Q vs))

      at_child-AlikeAll :
          (n : ℕ) (p : List ℕ) (ds : ViewDirectories Q) → AlikeAll Q ds (at_child Q f n p ds)
      at_child-AlikeAll n p nil = tt
      at_child-AlikeAll zero p (cons d ds) =
          (at_directory-Alike p d, SameTrees-refl (shown_all Q ds))
      at_child-AlikeAll (suc n) p (cons d ds) =
          (SameTree-refl (shown Q d), at_child-AlikeAll n p ds)

  pub gesture_at-Alike :
      (g : Gesture) (p : List ℕ) (o : Option ℕ) (d : ViewDirectory Q)
      → Alike Q d (gesture_at Q g p o d)
  unfolding gesture_at
  gesture_at-Alike g p none d =
      at_directory-Alike (directory_gesture Q g) (directory_gesture-Alike g) p d
  gesture_at-Alike g p (some n) d =
      at_directory-Alike (on_variable Q (variable_gesture Q g) n)
        (on_variable-Alike (variable_gesture Q g) (variable_gesture-AlikeVar g) n) p d

  drop_variable-AlikeVar : (t : Text) (x : Row Q × XmlVar) → AlikeVar Q x (drop_variable Q t x)
  unfolding drop_variable update_variable_item
  drop_variable-AlikeVar t (r, v) = (refl, refl)

  pub drop_at-Alike :
      (t : Text) (p : List ℕ) (o : Option ℕ) (d : ViewDirectory Q) → Alike Q d (drop_at Q t p o d)
  unfolding drop_at
  drop_at-Alike t p none d =
      at_directory-Alike (on_directory Q (drop_directory Q t))
        (on_directory-Alike (drop_directory Q t) (drop_directory-SamePlace t)) p d
  drop_at-Alike t p (some n) d =
      at_directory-Alike (on_variable Q (drop_variable Q t) n)
        (on_variable-Alike (drop_variable Q t) (drop_variable-AlikeVar t) n) p d
