-- ===== src/Form/View/Target.antt =====
-- The item that a signal comes from: the place of a directory's item below the root, as the numbers of
-- the children on the way, and the number of a variable among the directory's variables.
use control_system_adapter_o.Prelude.{ℕ, zero, suc, Bool, Option, none, some, List, [], ◌∷◌}
use control_system_adapter_o.Prelude.Text.{Text}
use control_system_adapter_o.Variable.{XmlVar}
use control_system_adapter_o.Directory.{DirectoryInfo}
use control_system_adapter_o.Form.Qt.{Qt}
use control_system_adapter_o.Form.View.{Row, ViewDirectory, folder, ViewDirectories, nil, cons}
use control_system_adapter_o.Form.View.Edit.{
  Column, update_variable_item, update_directory_item, drop_variable, drop_directory,
}
use control_system_adapter_o.Form.View.Exclude.{map_directory, map_item}
use control_system_adapter_o.Form.View.History.{choose_history, choose_variable_history}

-- What the user does to an item
pub data Gesture : Type 0 where
  typed : Column → Text → Gesture
  set_exclude : Bool → Gesture
  chose_history : Text → Gesture

module _ (Q : Qt) where
  -- The objects of an item are changed by a function on a directory's item and its subtree.
  unfoldable mutual
    pub at_directory :
        (ViewDirectory Q → ViewDirectory Q) → List ℕ → ViewDirectory Q → ViewDirectory Q
    at_directory f [] d = f d
    at_directory f (n ∷ p) (folder r i ds vs) = folder r i (at_child f n p ds) vs

    pub at_child :
        (ViewDirectory Q → ViewDirectory Q) → ℕ → List ℕ → ViewDirectories Q → ViewDirectories Q
    at_child f n p nil = nil
    at_child f zero p (cons d ds) = cons (at_directory f p d) ds
    at_child f (suc n) p (cons d ds) = cons d (at_child f n p ds)

  unfoldable pub at_number :
      (Row Q × XmlVar → Row Q × XmlVar) → ℕ → List (Row Q × XmlVar) → List (Row Q × XmlVar)
  at_number f n [] = []
  at_number f zero (v ∷ vs) = f v ∷ vs
  at_number f (suc n) (v ∷ vs) = v ∷ at_number f n vs

  unfoldable pub on_variable :
      (Row Q × XmlVar → Row Q × XmlVar) → ℕ → ViewDirectory Q → ViewDirectory Q
  unfolding at_number
  on_variable f n (folder r i ds vs) = folder r i ds (at_number f n vs)

  unfoldable pub on_directory :
      (Row Q × DirectoryInfo → Row Q × DirectoryInfo) → ViewDirectory Q → ViewDirectory Q
  on_directory f (folder r i ds vs) = folder (f (r, i)).0 (f (r, i)).1 ds vs

  -- The handler that a directory's item has for a gesture
  unfoldable pub directory_gesture : Gesture → ViewDirectory Q → ViewDirectory Q
  unfolding on_directory update_directory_item map_directory choose_history
  directory_gesture (typed c t) d = on_directory (update_directory_item Q c t) d
  directory_gesture (set_exclude b) d = map_directory Q b d
  directory_gesture (chose_history t) d = choose_history Q t d

  unfoldable pub variable_gesture : Gesture → Row Q × XmlVar → Row Q × XmlVar
  unfolding update_variable_item map_item choose_variable_history
  variable_gesture (typed c t) v = update_variable_item Q c t v
  variable_gesture (set_exclude b) v = map_item Q b v
  variable_gesture (chose_history t) v = choose_variable_history Q t v

  unfoldable pub gesture_at : Gesture → List ℕ → Option ℕ → ViewDirectory Q → ViewDirectory Q
  unfolding at_directory on_variable directory_gesture variable_gesture
  gesture_at g p none d = at_directory (directory_gesture g) p d
  gesture_at g p (some n) d = at_directory (on_variable (variable_gesture g) n) p d

  -- `dropEvent`: the item is dropped on a directory that has the path.
  unfoldable pub drop_at : Text → List ℕ → Option ℕ → ViewDirectory Q → ViewDirectory Q
  unfolding at_directory on_variable on_directory drop_directory drop_variable
  drop_at path p none d = at_directory (on_directory (drop_directory Q path)) p d
  drop_at path p (some n) d = at_directory (on_variable (drop_variable Q path) n) p d

  -- The path of the directory whose item the drop is on
  unfoldable mutual
    pub path_at : List ℕ → ViewDirectory Q → Option Text
    path_at [] (folder r i ds vs) = some i.path
    path_at (n ∷ p) (folder r i ds vs) = path_below n p ds

    pub path_below : ℕ → List ℕ → ViewDirectories Q → Option Text
    path_below n p nil = none
    path_below zero p (cons d ds) = path_at p d
    path_below (suc n) p (cons d ds) = path_below n p ds
