-- ===== src/Directory.antt =====
-- `XMLDirectory` (with `MapOption`) of tools/mapfileGenerator/ctk_opcua_generator_tools/generatorClass.py.
-- The `element` that the code keeps and never reads is left out.
pub mod Parse
pub mod Total
pub mod Search
pub mod Invariant
pub mod Change
pub mod SameTree
pub mod Write
pub mod Entries
pub mod Sections
use control_system_adapter_o.Prelude.{
  ℕ, Bool, true, false, Option, none, some, List, [], ◌∷◌, if◌then◌else◌, map,
}
use control_system_adapter_o.Prelude.Text.{Text, text_eq}
use control_system_adapter_o.Variable.{XmlVar, var_eq, reset_var}

pub record DirectoryInfo : Type 0 where
  pub exclude : Option Bool
  pub historizing : Option Text
  pub name : Text
  pub path : Text
  pub new_name : Option Text
  pub new_description : Option Text
  pub new_destination : Option Text
  pub hierarchy_level : ℕ

-- A directory has its own attributes, its directories and its variables.
mutual
  pub data XmlDirectory : Type 0 where
    directory : DirectoryInfo → Directories → List XmlVar → XmlDirectory

  pub data Directories : Type 0 where
    nil : Directories
    cons : XmlDirectory → Directories → Directories

abbrev pub info : XmlDirectory → DirectoryInfo
info (directory i ds vs) = i

abbrev pub vars : XmlDirectory → List XmlVar
vars (directory i ds vs) = vs

-- What a directory can be compared with.
pub data Operand : Type 0 where
  str : Text → Operand
  other_directory : XmlDirectory → Operand
  other : Operand

-- `d == operand`; `none` is `NotImplemented`. The second test of the code is on the builtin function
-- `dir`, which is no directory, so it never holds.
unfoldable pub directory_eq : XmlDirectory → Operand → Option Bool
directory_eq d (str t) = some (text_eq t (info d).path)
directory_eq d _ = none

-- `d == t` for a text
unfoldable pub is_at : XmlDirectory → Text → Bool
is_at d t = text_eq t (info d).path

-- The loop tests each child before it searches it.
unfoldable mutual
  unfolding is_at

  pub find_dir : XmlDirectory → Text → Option XmlDirectory
  find_dir (directory i ds vs) t =
      let below = find_in ds t in
      if is_at (directory i ds vs) t then some (directory i ds vs) else below

  pub find_in : Directories → Text → Option XmlDirectory
  find_in nil t = none
  find_in (cons d ds) t =
      if is_at d t then some d else elim (find_dir d t) [ none ↦ find_in ds t | some r ↦ some r ]

unfoldable pub find_among : List XmlVar → Text → Option XmlVar
unfolding var_eq
find_among [] t = none
find_among (v ∷ vs) t = if var_eq v t then some v else find_among vs t

unfoldable mutual
  unfolding find_among

  pub find_var : XmlDirectory → Text → Option XmlVar
  find_var (directory i ds vs) t = elim (find_among vs t) [
    | none ↦ find_var_in ds t
    | some v ↦ some v
  ]

  pub find_var_in : Directories → Text → Option XmlVar
  find_var_in nil t = none
  find_var_in (cons d ds) t = elim (find_var d t) [ none ↦ find_var_in ds t | some v ↦ some v ]

unfoldable pub reset_info : DirectoryInfo → DirectoryInfo
reset_info i = record i { new_name = none; new_description = none; new_destination = none }

unfoldable mutual
  unfolding reset_info reset_var

  pub reset : XmlDirectory → XmlDirectory
  reset (directory i ds vs) = directory (reset_info i) (reset_all ds) (map reset_var vs)

  pub reset_all : Directories → Directories
  reset_all nil = nil
  reset_all (cons d ds) = cons (reset d) (reset_all ds)

abbrev pub is_found {ℓ} : {A : Type ℓ} → Option A → Bool
is_found none = false
is_found (some _) = true

-- An assignment to the attributes of the directory that `find_dir` gives: it is changed in place.
unfoldable mutual
  unfolding is_at find_dir

  pub change_dir : (DirectoryInfo → DirectoryInfo) → Text → XmlDirectory → XmlDirectory
  change_dir f t (directory i ds vs) =
      let below = directory i (change_in f t ds) vs in
      if is_at (directory i ds vs) t then directory (f i) ds vs else below

  pub change_in : (DirectoryInfo → DirectoryInfo) → Text → Directories → Directories
  change_in f t nil = nil
  change_in f t (cons d ds) =
      let here = cons (change_dir f t d) ds in
      let later = cons d (change_in f t ds) in if is_found (find_dir d t) then here else later

unfoldable pub change_among : (XmlVar → XmlVar) → Text → List XmlVar → List XmlVar
unfolding var_eq
change_among f t [] = []
change_among f t (v ∷ vs) =
    let later = v ∷ change_among f t vs in if var_eq v t then f v ∷ vs else later

-- An assignment to the attributes of the variable that `find_var` gives.
unfoldable mutual
  unfolding find_among change_among find_var

  pub change_var : (XmlVar → XmlVar) → Text → XmlDirectory → XmlDirectory
  change_var f t (directory i ds vs) =
      let below = directory i (change_var_in f t ds) vs in
      if is_found (find_among vs t) then directory i ds (change_among f t vs) else below

  pub change_var_in : (XmlVar → XmlVar) → Text → Directories → Directories
  change_var_in f t nil = nil
  change_var_in f t (cons d ds) =
      let here = cons (change_var f t d) ds in
      let later = cons d (change_var_in f t ds) in if is_found (find_var d t) then here else later
