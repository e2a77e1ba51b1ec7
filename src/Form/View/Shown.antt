-- ===== src/Form/View/Shown.antt =====
-- The items that are made for a tree show that tree.
use control_system_adapter_o.Prelude.{◌≡◌, sym, ap, ◌∙◌, Bool, List, [], ◌∷◌}
use control_system_adapter_o.Prelude.Result.{ok, bind-ok, ok-injective}
use control_system_adapter_o.Variable.{XmlVar}
use control_system_adapter_o.Directory as Model
use control_system_adapter_o.Directory.{XmlDirectory, directory}
use control_system_adapter_o.Form.Qt.{Qt}
use control_system_adapter_o.Form.View.{
  Row, ViewDirectory, ViewDirectories, objects, shown, shown_all,
}
use control_system_adapter_o.Form.View.Rows.{
  new_variable_row, create_variable_nodes, create_directory_node, create_all,
}

module _ (Q : Qt) where
  objects-create_variable_nodes :
      (vs : List XmlVar) (rows : List (Row Q × XmlVar))
      → create_variable_nodes Q vs ≡ ok rows
      → objects Q rows ≡ vs
  unfolding create_variable_nodes
  objects-create_variable_nodes [] rows h = ap (objects Q) (sym (ok-injective h))
  objects-create_variable_nodes (v ∷ vs) rows h =
      let a = bind-ok (new_variable_row Q v) _ h in
      let b = bind-ok (create_variable_nodes Q vs) _ a.2 in
      ap (objects Q) (sym (ok-injective b.2))
      ∙ ap (λ l. v ∷ l) (objects-create_variable_nodes vs b.0 b.1)

  mutual
    unfolding create_directory_node shown

    shown-created :
        (d : XmlDirectory) (is_root : Bool) (view : ViewDirectory Q)
        → create_directory_node Q d is_root ≡ ok view
        → shown Q view ≡ d
    shown-created (directory i ds vs) is_root view h =
        let a = bind-ok (create_all Q ds) _ h in
        let b = bind-ok (create_variable_nodes Q vs) _ a.2 in
        ap (shown Q) (sym (ok-injective b.2))
        ∙ ap (λ l. directory i l (objects Q b.0)) (shown_all-created ds a.0 a.1)
        ∙ ap (directory i ds) (objects-create_variable_nodes vs b.0 b.1)

    shown_all-created :
        (ds : Model.Directories) (views : ViewDirectories Q)
        → create_all Q ds ≡ ok views
        → shown_all Q views ≡ ds
    shown_all-created Model.nil views h = ap (shown_all Q) (sym (ok-injective h))
    shown_all-created (Model.cons d ds) views h =
        let a = bind-ok (create_directory_node Q d Bool.false) _ h in
        let b = bind-ok (create_all Q ds) _ a.2 in
        ap (shown_all Q) (sym (ok-injective b.2))
        ∙ ap (λ x. Model.cons x (shown_all Q b.0)) (shown-created d Bool.false a.0 a.1)
        ∙ ap (Model.cons d) (shown_all-created ds b.0 b.1)

  -- The items that `_createDirectoryNode` makes for a directory stand for exactly the objects of its
  -- tree, in the same nesting and order.
  pub shown-create_directory_node :
      (d : XmlDirectory) (is_root : Bool) (view : ViewDirectory Q)
      → create_directory_node Q d is_root ≡ ok view
      → shown Q view ≡ d
  shown-create_directory_node = shown-created
