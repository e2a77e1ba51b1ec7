-- ===== src/Form/View/Propagate.antt =====
-- `_setHistoryItem` and `_mapDirectory` have one shape: the new value of a directory's widget is set in
-- the widgets of its children, whose signals set it below, and the objects take it. A widget that has
-- the value already gives no signal, and the change stops there.
use control_system_adapter_o.Prelude.{
  ◌≡◌, refl, ap, ◌∙◌, Bool, true, false, ◌||◌, List, [], ◌∷◌, ◌++◌, if◌then◌else◌, Bool-cases, inl,
  inr,
}
use control_system_adapter_o.Variable.{XmlVar}
use control_system_adapter_o.Directory.{DirectoryInfo}
use control_system_adapter_o.Form.Qt.{Qt}
use control_system_adapter_o.Form.View.{Row, ViewDirectory, folder, ViewDirectories, nil, cons}

module _ (Q : Qt) where
  pub record Change : Type 0 where
    -- the widget has the value already
    pub is_there : Row Q → Bool
    pub set_widget : Row Q → Row Q
    -- what the handler does to the object; a directory may have no children
    pub set_directory : Bool → DirectoryInfo → DirectoryInfo
    pub set_variable : XmlVar → XmlVar
    -- what the handler of the directory does to a child's item behind setting its widget
    pub after_child : Row Q → Row Q

  abbrev pub is_empty : ViewDirectories Q → List (Row Q × XmlVar) → Bool
  is_empty nil [] = true
  is_empty nil (_ ∷ _) = false
  is_empty (cons _ _) _ = false

  abbrev pub with_row : (Row Q → Row Q) → ViewDirectory Q → ViewDirectory Q
  with_row f (folder r i ds vs) = folder (f r) i ds vs

  module _ (c : Change) where
    -- Setting the widget of a variable's item
    unfoldable pub change_variable : Row Q × XmlVar → Row Q × XmlVar
    change_variable (r, v) = if c.is_there r then (r, v) else (c.set_widget r, c.set_variable v)

    unfoldable pub change_variables : List (Row Q × XmlVar) → List (Row Q × XmlVar)
    unfolding change_variable
    change_variables [] = []
    change_variables ((r, v) ∷ vs) =
        (c.after_child (change_variable (r, v)).0, (change_variable (r, v)).1) ∷ change_variables vs

    -- Setting the widget of a directory's item
    unfoldable mutual
      unfolding change_variables

      pub change_item : ViewDirectory Q → ViewDirectory Q
      change_item (folder r i ds vs) =
          let changed =
            folder (c.set_widget r) (c.set_directory (is_empty ds vs) i) (change_children ds)
              (change_variables vs) in
          if c.is_there r then folder r i ds vs else changed

      pub change_children : ViewDirectories Q → ViewDirectories Q
      change_children nil = nil
      change_children (cons d ds) =
          cons (with_row c.after_child (change_item d)) (change_children ds)

-- Which variables a change reaches.
module _ (Q : Qt) (c : Change Q) where
  -- The variables below a directory, each with the answer whether its own box, or one of those of the
  -- directories from there on down to it, has the value already. The flag is that answer for the
  -- directories above.
  abbrev pub marked_variables : Bool → List (Row Q × XmlVar) → List (Bool × XmlVar)
  marked_variables above [] = []
  marked_variables above ((r, v) ∷ vs) = (above || c.is_there r, v) ∷ marked_variables above vs

  abbrev mutual
    pub marked : Bool → ViewDirectory Q → List (Bool × XmlVar)
    marked above (folder r i ds vs) =
        marked_below (above || c.is_there r) ds ++ marked_variables (above || c.is_there r) vs

    pub marked_below : Bool → ViewDirectories Q → List (Bool × XmlVar)
    marked_below above nil = []
    marked_below above (cons d ds) = marked above d ++ marked_below above ds

  -- The variables that no box shields take the value, and the others stay as they are.
  abbrev pub assigned : List (Bool × XmlVar) → List XmlVar
  assigned [] = []
  assigned ((shielded, v) ∷ vs) = (if shielded then v else c.set_variable v) ∷ assigned vs

-- The variables of a list, and all below a directory
module _ (Q : Qt) where
  abbrev pub row_variables : List (Row Q × XmlVar) → List XmlVar
  row_variables [] = []
  row_variables ((r, v) ∷ vs) = v ∷ row_variables vs

  abbrev mutual
    pub variables_below : ViewDirectory Q → List XmlVar
    variables_below (folder r i ds vs) = all_variables_below ds ++ row_variables vs

    pub all_variables_below : ViewDirectories Q → List XmlVar
    all_variables_below nil = []
    all_variables_below (cons d ds) = variables_below d ++ all_variables_below ds

  module _ (c : Change Q) where
    assigned-append :
        (xs ys : List (Bool × XmlVar))
        → assigned Q c (xs ++ ys) ≡ assigned Q c xs ++ assigned Q c ys
    assigned-append [] ys = refl
    assigned-append ((b, v) ∷ xs) ys =
        ap (λ zs. (if b then v else c.set_variable v) ∷ zs) (assigned-append xs ys)

    shielded_variables :
        (vs : List (Row Q × XmlVar))
        → assigned Q c (marked_variables Q c true vs) ≡ row_variables vs
    shielded_variables [] = refl
    shielded_variables ((r, v) ∷ vs) = ap (λ zs. v ∷ zs) (shielded_variables vs)

    -- Behind a box that has the value already nothing changes.
    mutual
      shielded : (d : ViewDirectory Q) → assigned Q c (marked Q c true d) ≡ variables_below d
      shielded (folder r i ds vs) =
          assigned-append (marked_below Q c true ds) (marked_variables Q c true vs)
          ∙ rw (shielded_below ds, shielded_variables vs) refl

      shielded_below :
          (ds : ViewDirectories Q)
          → assigned Q c (marked_below Q c true ds) ≡ all_variables_below ds
      shielded_below nil = refl
      shielded_below (cons d ds) =
          assigned-append (marked Q c true d) (marked_below Q c true ds)
          ∙ rw (shielded d, shielded_below ds) refl

    changed_variables :
        (vs : List (Row Q × XmlVar))
        → row_variables (change_variables Q c vs) ≡ assigned Q c (marked_variables Q c false vs)
    unfolding change_variables
    changed_variables [] = refl
    changed_variables ((r, v) ∷ vs) = elim (Bool-cases (c.is_there r)) [
      | inl there ↦ rw (there, changed_variables vs) refl
      | inr new ↦ rw (new, changed_variables vs) refl
    ]

    below-with_row :
        (f : Row Q → Row Q) (d : ViewDirectory Q)
        → variables_below (with_row Q f d) ≡ variables_below d
    below-with_row f (folder r i ds vs) = refl

    mutual
      unfolding change_item

      changed :
          (d : ViewDirectory Q)
          → variables_below (change_item Q c d) ≡ assigned Q c (marked Q c false d)
      changed (folder r i ds vs) = elim (Bool-cases (c.is_there r)) [
        | inl there ↦
            rw
              (
                there,
                assigned-append (marked_below Q c true ds) (marked_variables Q c true vs),
                shielded_below ds,
                shielded_variables vs,
              )
              refl
        | inr new ↦
            rw
              (
                new,
                assigned-append (marked_below Q c false ds) (marked_variables Q c false vs),
                changed_below ds,
                changed_variables vs,
              )
              refl
      ]

      changed_below :
          (ds : ViewDirectories Q)
          → all_variables_below (change_children Q c ds) ≡ assigned Q c (marked_below Q c false ds)
      changed_below nil = refl
      changed_below (cons d ds) =
          rw
            (
              assigned-append (marked Q c false d) (marked_below Q c false ds),
              below-with_row c.after_child (change_item Q c d),
              changed d,
              changed_below ds,
            )
            refl

    pub variables_below-change_item :
        (d : ViewDirectory Q)
        → variables_below (change_item Q c d) ≡ assigned Q c (marked Q c false d)
    variables_below-change_item = changed
