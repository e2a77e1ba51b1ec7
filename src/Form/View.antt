-- ===== src/Form/View.antt =====
-- The tree of `MapGeneratorForm`: an item for each directory and variable, which shows its object and
-- changes it. An item keeps its object here, so the generator's tree is the view without its rows.
-- The texts and colours of an item are what the code or the user has given it.
pub mod Rows
pub mod Shown
pub mod Edit
pub mod Propagate
pub mod History
pub mod Exclude
pub mod Target
pub mod Top
pub mod Same
use control_system_adapter_o.Prelude.{Bool, List, [], ◌∷◌}
use control_system_adapter_o.Prelude.Text.{Text}
use control_system_adapter_o.Variable.{XmlVar}
use control_system_adapter_o.Directory as Model
use control_system_adapter_o.Directory.{DirectoryInfo, XmlDirectory, directory}
use control_system_adapter_o.Form.Qt.{Qt}

module _ (Q : Qt) where
  -- The columns 0, 3, 4 and 5 with whether they are red, the widgets of the columns 1 and 2
  pub record Row : Type 0 where
    pub name : Text
    pub unit : Text
    pub description : Text
    pub destination : Text
    pub name_red : Bool
    pub unit_red : Bool
    pub description_red : Bool
    pub destination_red : Bool
    pub is_input : Bool
    pub is_expanded : Bool
    pub exclude : Q.CheckBox
    pub history : Q.ComboBox
    pub history_enabled : Bool

  mutual
    pub data ViewDirectory : Type 0 where
      folder : Row → DirectoryInfo → ViewDirectories → List (Row × XmlVar) → ViewDirectory

    pub data ViewDirectories : Type 0 where
      nil : ViewDirectories
      cons : ViewDirectory → ViewDirectories → ViewDirectories

  abbrev pub objects : List (Row × XmlVar) → List XmlVar
  objects [] = []
  objects ((r, v) ∷ vs) = v ∷ objects vs

  -- The generator's tree
  unfoldable mutual
    pub shown : ViewDirectory → XmlDirectory
    shown (folder r i ds vs) = directory i (shown_all ds) (objects vs)

    pub shown_all : ViewDirectories → Model.Directories
    shown_all nil = Model.nil
    shown_all (cons d ds) = Model.cons (shown d) (shown_all ds)

  -- The items with the objects of a tree of the same nesting
  abbrev pub with_variables : List (Row × XmlVar) → List XmlVar → List (Row × XmlVar)
  with_variables [] us = []
  with_variables ((r, v) ∷ vs) [] = (r, v) ∷ vs
  with_variables ((r, v) ∷ vs) (u ∷ us) = (r, u) ∷ with_variables vs us

  unfoldable mutual
    pub with_objects : ViewDirectory → XmlDirectory → ViewDirectory
    with_objects (folder r i ds vs) (directory j es us) =
        folder r j (with_all_objects ds es) (with_variables vs us)

    pub with_all_objects : ViewDirectories → Model.Directories → ViewDirectories
    with_all_objects nil es = nil
    with_all_objects (cons d ds) Model.nil = cons d ds
    with_all_objects (cons d ds) (Model.cons e es) =
        cons (with_objects d e) (with_all_objects ds es)
