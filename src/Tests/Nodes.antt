-- ===== src/Tests/Nodes.antt =====
-- Runs of the namespace's functions on an address space of three nodes.
use control_system_adapter_o.Prelude.{
  none, ℕ, ◌≡◌, refl, ◌==◌, true, false, some, List, [], ◌∷◌, if◌then◌else◌, arith, ==_iff,
  Bool-cases, inl, inr, ◌<◌,
}
use control_system_adapter_o.Prelude.Text.{codes}
use control_system_adapter_o.Prelude.Result.{ok, Run, done, raised}
use control_system_adapter_o.Prelude.Number.{pos}
use control_system_adapter_o.Namespace.NodeId.{new_node_id, node_id_text}
use control_system_adapter_o.Namespace.NodeId.RoundTrip.{
  id_of, numeric, guid, new_node_id-node_id_text,
}
use control_system_adapter_o.Namespace.Heap.{
  nothing, unlinked, node, Reference, Node, Heap, references_of, update_all_inverse_references,
  member,
}
use control_system_adapter_o.Namespace.Sanitize.{sanitize_node, get_first_parent_node}
use control_system_adapter_o.Namespace.Sanitize.Healthy.{Sanitized, sanitize_node-Sanitized}
use control_system_adapter_o.Namespace.Walk.{print_dot, print_dot_graph_walk}
use control_system_adapter_o.Namespace.Inverse.{AllKnow, update_all_inverse_references-AllKnow}
use control_system_adapter_o.Namespace.Space.{Space, new_namespace, link_open_pointers}
use control_system_adapter_o.Namespace.Space.Linking.{
  IsLinkable, IsUntyped, link_open_pointers-IsResolved,
}
use control_system_adapter_o.Namespace.Reorder.{reorder_nodes_min_dependencies}
use control_system_adapter_o.Namespace.Reorder.Matrix.{MatrixRow, get_min_weight_node}
use control_system_adapter_o.Namespace.Reorder.Least.{IsLeast, get_min_weight_node-IsLeast}
use control_system_adapter_o.Namespace.Reorder.Column.{occurrences}
use control_system_adapter_o.Namespace.Reorder.Laws.{AreKnown, reorder-IsPermutation}

-- The node 0 is the reference type HasTypeDefinition; 1 is an object of the type 2.
abbrev node_at : ℕ → Node
node_at n =
    if n == 0
    then record {
      id = id_of (pos 0) (numeric (pos 40));
      browse_name = codes "HasTypeDefinition";
      inverse_name = none;
      references = [];
      referenced_by = [];
    }
    else if n == 1
    then record {
      id = id_of (pos 0) (numeric (pos 85));
      browse_name = codes "Objects";
      inverse_name = none;
      references = 0 ∷ 1 ∷ [];
      referenced_by = [];
    }
    else record {
      id = id_of (pos 0) (numeric (pos 61));
      browse_name = codes "FolderType";
      inverse_name = none;
      references = [];
      referenced_by = [];
    }

abbrev reference_at : ℕ → Reference
reference_at n =
    if n == 0
    then record {
      target = node 2;
      reference_type = node 0;
      is_forward = true;
      is_hidden = false;
      parent = some 1;
    }
    else record {
      target = unlinked (codes "i=1");
      reference_type = nothing;
      is_forward = true;
      is_hidden = false;
      parent = some 1;
    }

abbrev address_space : Heap
address_space = record { nodes = node_at; references = reference_at; next = 2 }

abbrev node_list : List ℕ
node_list = 1 ∷ 0 ∷ 2 ∷ []

node_list_reordered : reorder_nodes_min_dependencies address_space node_list ≡ ok (0 ∷ 2 ∷ 1 ∷ [])
unfolding reorder_nodes_min_dependencies
node_list_reordered = refl

address_space-known :
    (n : ℕ) → member n node_list ≡ true → AreKnown node_list (references_of address_space n)
unfolding references_of
address_space-known n h = elim (Bool-cases (n == 0)) [
  | inl e ↦ rw ((==_iff n 0).0 e) tt
  | inr e ↦ elim (Bool-cases (n == 1)) [
    | inl e1 ↦ rw ((==_iff n 1).0 e1) (refl, (tt, tt))
    | inr e1 ↦ rw (e, e1) tt
  ]
]

reorder-IsPermutation_example :
    (r : List ℕ) × (reorder_nodes_min_dependencies address_space node_list ≡ ok r)
    × ((x : ℕ) → occurrences x r ≡ occurrences x node_list)
unfolding reorder_nodes_min_dependencies
reorder-IsPermutation_example =
    reorder-IsPermutation address_space node_list (0 ∷ []) [] (refl, (refl, (refl, tt)))
      address_space-known refl refl

update_all_inverse_references-AllKnow_example :
    AllKnow
      (update_all_inverse_references node_list address_space)
      1
      (references_of (update_all_inverse_references node_list address_space) 1)
update_all_inverse_references-AllKnow_example =
    update_all_inverse_references-AllKnow node_list address_space 1 refl

new_node_id-node_id_text_example :
    new_node_id (node_id_text (id_of (pos 2) (guid 0x1f (0 ∷ 0xabc ∷ []))))
    ≡ ok (id_of (pos 2) (guid 0x1f (0 ∷ 0xabc ∷ [])))
new_node_id-node_id_text_example = new_node_id-node_id_text (pos 2) (guid 0x1f (0 ∷ 0xabc ∷ [])) tt

-- Three nodes whose references are not linked yet: 1 is organized by 0, by an alias, and 5 is not there.
abbrev waiting_at : ℕ → Reference
waiting_at n =
    if n == 0
    then record {
      target = unlinked (codes "i=84");
      reference_type = unlinked (codes "Organizes");
      is_forward = false;
      is_hidden = false;
      parent = some 1;
    }
    else record {
      target = unlinked (codes "i=5");
      reference_type = nothing;
      is_forward = true;
      is_hidden = false;
      parent = some 1;
    }

abbrev linking_node_at : ℕ → Node
linking_node_at n =
    if n == 0
    then record {
      id = id_of (pos 0) (numeric (pos 84));
      browse_name = codes "Root";
      inverse_name = none;
      references = [];
      referenced_by = [];
    }
    else if n == 1
    then record {
      id = id_of (pos 0) (numeric (pos 85));
      browse_name = codes "Objects";
      inverse_name = none;
      references = 0 ∷ 1 ∷ [];
      referenced_by = [];
    }
    else record {
      id = id_of (pos 0) (numeric (pos 35));
      browse_name = codes "Organizes";
      inverse_name = none;
      references = [];
      referenced_by = [];
    }

abbrev unlinked_heap : Heap
unlinked_heap = record { nodes = linking_node_at; references = waiting_at; next = 2 }

abbrev unlinked_space : Space
unlinked_space = record (new_namespace (codes "testing") (0 ∷ 1 ∷ [])) {
  nodes = 0 ∷ 1 ∷ 2 ∷ [];
  aliases = (codes "Organizes", codes "i=35") ∷ [];
}

left_of : Run (Heap × Space) → List ℕ
left_of (done (h, s)) = s.link_later
left_of (raised e (h, s)) = []

unlinked_space_left : left_of (link_open_pointers unlinked_heap unlinked_space) ≡ 1 ∷ []
unfolding left_of link_open_pointers
unlinked_space_left = refl

unlinked_heap-waits :
    (r : ℕ) → member r (0 ∷ 1 ∷ []) ≡ true → (r < 2) × IsUntyped (waiting_at r).reference_type
unlinked_heap-waits r h = elim (Bool-cases (r == 0)) [
  | inl e ↦ rw ((==_iff r 0).0 e) (omega arith, tt)
  | inr e ↦ let one : r ≡ 1 = ground arith in rw one (omega arith, tt)
]

link_open_pointers-IsResolved_example : IsLinkable unlinked_heap unlinked_space
link_open_pointers-IsResolved_example =
    link_open_pointers-IsResolved unlinked_heap unlinked_space (refl, (refl, tt))
      unlinked_heap-waits

-- The reference of the node 1 to "i=1", which is not linked, goes.
sanitize_node-Sanitized_example : Sanitized 1 (sanitize_node 1 address_space)
sanitize_node-Sanitized_example = sanitize_node-Sanitized address_space 1

count_after : Run Heap → ℕ → List ℕ
count_after (done h) n = (h.nodes n).references
count_after (raised e h) n = []

sanitized_references : count_after (sanitize_node 1 address_space) 1 ≡ 0 ∷ []
unfolding count_after sanitize_node
sanitized_references = refl

-- All references of the node 1 are forward.
parent_missing : get_first_parent_node address_space 1 ≡ ok (none, none)
unfolding get_first_parent_node
parent_missing = refl

-- Of the rows of weight 300, 1 and 0, the last has no node left.
abbrev three_rows : List MatrixRow
three_rows =
    record { node = some 7; weights = pos 100 ∷ pos 200 ∷ [] }
    ∷ record { node = some 8; weights = pos 1 ∷ pos 0 ∷ [] }
    ∷ record { node = none; weights = pos 0 ∷ pos 0 ∷ [] }
    ∷ []

get_min_weight_node-IsLeast_example : IsLeast (pos 1) three_rows
unfolding get_min_weight_node
get_min_weight_node-IsLeast_example =
    get_min_weight_node-IsLeast three_rows (record { index = 1; node = 8; weight = pos 1 })
      (refl, (refl, (refl, tt))) refl

dot_of_folder_type :
    print_dot address_space 2
    ≡ ok (codes "node_i61 [label = \"{i=61|FolderType}\", shape=\"record\"]")
unfolding print_dot
dot_of_folder_type = refl

-- From the node 1, one step leads to its type.
walk_from_objects :
    print_dot_graph_walk address_space false [] node_list 1 (some 1)
    ≡ ok (
        some (
          codes
            "digraph ns {\nnode_i85 [label = \"{i=85|Objects}\", shape=\"record\"]\nnode_i85 -> node_i61 [label=\"HasTypeDefinition\"]\nnode_i61 [label = \"{i=61|FolderType}\", shape=\"record\"]}\n"))
unfolding print_dot_graph_walk
walk_from_objects = refl
