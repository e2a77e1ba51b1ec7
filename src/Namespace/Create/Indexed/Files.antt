-- ===== src/Namespace/Create/Indexed/Files.antt =====
-- The ids of the nodes that whole files give.
use control_system_adapter_o.Prelude.{◌≡◌, refl, false, Option, none, some, List}
use control_system_adapter_o.Prelude.Text.{Text}
use control_system_adapter_o.Prelude.Result.{Result, ok, err, Run, done, raised, state, with_value}
use control_system_adapter_o.Namespace.NodeId.{NodeId, node_id_text}
use control_system_adapter_o.Namespace.Space.{Space}
use control_system_adapter_o.Namespace.Create.{each, Dom, Kind}
use control_system_adapter_o.Namespace.Create.Aliases.{LeavesNodes}
use control_system_adapter_o.Namespace.Create.Kinds.{parse_node}
use control_system_adapter_o.Namespace.Create.Stable.Class.{parse_node-Kept}
use control_system_adapter_o.Namespace.Create.Parse.{
  Building, kind_of, new_draft, with_node, with_class, create_with_id, with_aliases, parse_xml,
  has_key,
}
use control_system_adapter_o.Namespace.Create.Indexed.Unique.{
  IsIndexed, SameIds, SameIds-IsStable, replace-IsIndexed, with_node-IsIndexed,
}
use control_system_adapter_o.Namespace.Create.Files.{parse_files-Whole}

module _ (D : Dom) where
  create_with_id-IsIndexed :
      (t : Text) (e : D.Xml) (id : NodeId) (b : Building D)
      → IsIndexed D b
      → IsIndexed D (state (create_with_id D t e id b))
  unfolding create_with_id
  create_with_id-IsIndexed t e id b h =
      let room = replace-IsIndexed D (node_id_text id) b h in
      let c = room.0 in rw room.1 (made c (kind_of D t) room.2 room.3)
    where
      made :
          (c : Building D) (r : Result (Option (Kind D)))
          → IsIndexed D c
          → has_key D c.nodeids (node_id_text id) ≡ false
          → IsIndexed D (
              state (
                with_value r c (λ o.
                  with_class D o c (λ k. with_node D c (parse_node D e (new_draft D id k c))))))
      made c (err x) k free = k
      made c (ok none) k free = k
      made c (ok (some kind)) k free =
          with_node-IsIndexed D id kind c (parse_node D e (new_draft D id kind c)) k free (
            parse_node-Kept D (SameIds D c.next_node (new_draft D id kind c).heap)
              (SameIds-IsStable D c.next_node (new_draft D id kind c).heap) e
              (new_draft D id kind c) (refl, λ m. refl))

  with_aliases-IsIndexed :
      (b : Building D) (r : Run Space)
      → LeavesNodes b.space r
      → IsIndexed D b
      → IsIndexed D (state (with_aliases D b r))
  with_aliases-IsIndexed b (done s) e h = rw e.1 h
  with_aliases-IsIndexed b (raised x s) e h = rw e.1 h

  -- After files are read one after the other and without an exception: if no two nodes of the namespace
  -- have the same id, the dictionary has just the ids of the nodes, and the list of nodes does not end
  -- with `None`, all this is so again. A repeated id is included, whose new node takes the place of the
  -- old one.
  pub parse_files-IsIndexed :
      (files : List (Result (List D.Xml))) (b c : Building D)
      → each (parse_xml D) files b ≡ done c
      → b.ends_with_none ≡ false
      → IsIndexed D b
      → (c.ends_with_none ≡ false) × IsIndexed D c
  parse_files-IsIndexed files b c e end h =
      parse_files-Whole D (IsIndexed D) with_aliases-IsIndexed create_with_id-IsIndexed files b c e
        (end, h)
