-- ===== src/Namespace/Create/Parse.antt =====
-- `createNode` and `parseXML` of the namespace.
use control_system_adapter_o.Prelude.{
  ℕ, suc, ◌==◌, Bool, true, false, ◌||◌, Option, none, some, List, [], ◌∷◌, ◌++◌, if◌then◌else◌,
}
use control_system_adapter_o.Prelude.Text.{Text, codes, text_eq, lower}
use control_system_adapter_o.Prelude.Number.{pos, negsuc}
use control_system_adapter_o.Prelude.Result.{
  Result, ok, err, Run, done, raised, ◌▷◌, with_value, attribute_error, name_error, value_error,
}
use control_system_adapter_o.Namespace.NodeId.{NodeId, new_node_id, node_id_text, first_two, from}
use control_system_adapter_o.Namespace.Heap.{Node, Heap, put_node, drop_first}
use control_system_adapter_o.Namespace.Space.{Space, get_node_by_id_string}
use control_system_adapter_o.Namespace.Create.{
  each, Dom, Kind, variable_node, object_node, method_node, object_type_node, variable_type_node,
  data_type_node, reference_type_node, Details, Draft, attribute_of, build_alias_list,
}
use control_system_adapter_o.Namespace.Create.Base.{is_among}
use control_system_adapter_o.Namespace.Create.Kinds.{parse_node}

module _ (D : Dom) where
  -- A namespace with its nodes, its dictionary of ids, and the next object that is made
  pub record Building : Type 0 where
    pub heap : Heap
    pub space : Space
    -- the list of nodes has `None` behind the others
    pub ends_with_none : Bool
    pub nodeids : List (Text × ℕ)
    pub next_node : ℕ
    pub details : ℕ → Details D

  -- `__init_subType__` of each class
  abbrev pub new_variable : Kind D
  new_variable = variable_node (record {
    data_type = none;
    value_rank = negsuc 0;
    array_dimensions = none;
    access_level = pos 3;
    user_access_level = pos 3;
    minimum_sampling_interval = none;
    historizing = false;
    xml_value_def = none;
  })

  abbrev pub new_variable_type : Kind D
  new_variable_type = variable_type_node (record {
    data_type = none;
    value_rank = negsuc 0;
    is_abstract = false;
    xml_definition = none;
  })

  abbrev pub new_data_type : Kind D
  new_data_type = data_type_node (record { is_abstract = false; xml_definition = none })

  abbrev pub new_reference_type : Kind D
  new_reference_type = reference_type_node (record { is_abstract = false; symmetric = false })

  -- The class for a type. The class for a type of methods is missing, so its name raises. For a type
  -- that is not known there is none, and the node is `None`.
  unfoldable pub kind_of : Text → Result (Option (Kind D))
  unfolding text_eq
  kind_of t =
      if text_eq t (codes "variable")
      then ok (some new_variable)
      else if text_eq t (codes "object")
      then ok (some object_node)
      else if text_eq t (codes "method")
      then ok (some (method_node none))
      else if text_eq t (codes "objecttype")
      then ok (some (object_type_node false))
      else if text_eq t (codes "variabletype")
      then ok (some new_variable_type)
      else if text_eq t (codes "methodtype")
      then err name_error
      else if text_eq t (codes "datatype")
      then ok (some new_data_type)
      else if text_eq t (codes "referencetype")
      then ok (some new_reference_type)
      else ok none

  abbrev pub inverse_of : Kind D → Option Text
  inverse_of (reference_type_node i) = some []
  inverse_of k = none

  -- `opcua_node_t(id, ns)`
  abbrev pub blank_node : NodeId → Kind D → Node
  blank_node id k = record {
    id = id;
    browse_name = [];
    inverse_name = inverse_of k;
    references = [];
    referenced_by = [];
  }

  abbrev pub blank_details : Kind D → Details D
  blank_details k = record {
    kind = k;
    display_name = [];
    description = [];
    write_mask = pos 0;
    user_write_mask = pos 0;
  }

  -- The new node, in front of reading it
  abbrev pub new_draft : NodeId → Kind D → Building → Draft D
  new_draft id k b = record {
    heap = put_node b.next_node (blank_node id k) b.heap;
    link_later = b.space.link_later;
    node = b.next_node;
    details = blank_details k;
  }

  abbrev pub has_key : List (Text × ℕ) → Text → Bool
  has_key [] t = false
  has_key ((k, n) ∷ rest) t = text_eq k t || has_key rest t

  abbrev pub without_key : Text → List (Text × ℕ) → List (Text × ℕ)
  without_key t [] = []
  without_key t ((k, n) ∷ rest) =
      let later = without_key t rest in if text_eq k t then later else (k, n) ∷ later

  abbrev pub with_references : Draft D → Building → Building
  with_references d b = record b {
    heap = d.heap;
    space = record b.space { link_later = d.link_later };
    next_node = suc b.next_node;
  }

  -- The node that was read is added. An exception leaves it out; the references that it has made wait
  -- for linking all the same.
  abbrev pub with_node : Building → Run (Draft D) → Run Building
  with_node b (raised x d) = raised x (with_references d b)
  with_node b (done d) =
      let key = node_id_text (d.heap.nodes d.node).id in
      let now = with_references d b in
      done (record now {
        space = record now.space { nodes = b.space.nodes ++ (d.node ∷ []) };
        nodeids = without_key key b.nodeids ++ ((key, d.node) ∷ []);
        details = λ m. if m == d.node then d.details else b.details m;
      })

  abbrev pub without_node : Text → Building → Option ℕ → Run Building
  without_node t b none = raised value_error b
  without_node t b (some n) = done (record b {
    space = record b.space { nodes = drop_first n b.space.nodes };
    nodeids = without_key (node_id_text (b.heap.nodes n).id) b.nodeids;
  })

  -- A node with a known id takes the place of the one that has it.
  unfoldable pub replace : Text → Building → Run Building
  unfolding get_node_by_id_string text_eq node_id_text
  replace t b =
      if has_key b.nodeids t
      then without_node t b (get_node_by_id_string b.heap b.space.nodes t)
      else done b

  -- Without a class `None` is added to the list of nodes, and has no `id`.
  abbrev pub with_class : Option (Kind D) → Building → (Kind D → Run Building) → Run Building
  with_class none b read = raised attribute_error (record b { ends_with_none = true })
  with_class (some k) b read = read k

  unfoldable pub create_with_id : Text → D.Xml → NodeId → Building → Run Building
  unfolding replace kind_of parse_node node_id_text
  create_with_id ndtype e id b = replace (node_id_text id) b ▷ (λ c.
      with_value (kind_of ndtype) c
        (λ o. with_class o c (λ k. with_node c (parse_node D e (new_draft id k c)))))

  abbrev pub or_before : Option Text → Option Text → Option Text
  or_before none before = before
  or_before (some t) before = some t

  -- The last of the spellings that is there
  unfoldable pub id_attribute : List (Text × Text) → Option Text
  unfolding text_eq
  id_attribute attributes = or_before (attribute_of D attributes (codes "nodeid")) (
      or_before (attribute_of D attributes (codes "NodeID"))
        (attribute_of D attributes (codes "NodeId")))

  abbrev pub with_aliases : Building → Run Space → Run Building
  with_aliases b (done s) = done (record b { space = s })
  with_aliases b (raised x s) = raised x (record b { space = s })

  abbrev pub with_id : Text → D.Xml → Building → Option Text → Run Building
  with_id ndtype e b none = done b
  with_id ndtype e b (some t) = with_value (new_node_id t) b (λ id. create_with_id ndtype e id b)

  -- `createNode(ndtype, xmlelement)`
  unfoldable pub create_node : Text → D.Xml → Building → Run Building
  unfolding build_alias_list id_attribute new_node_id create_with_id text_eq
  create_node ndtype e b =
      if text_eq ndtype (codes "aliases")
      then with_aliases b (build_alias_list D e b.space)
      else with_id ndtype e b (id_attribute (D.attributes e))

  abbrev pub known_node_types : List Text
  known_node_types =
      codes "variable"
      ∷ codes "object"
      ∷ codes "method"
      ∷ codes "referencetype"
      ∷ codes "objecttype"
      ∷ codes "variabletype"
      ∷ codes "methodtype"
      ∷ codes "datatype"
      ∷ codes "referencetype"
      ∷ codes "aliases"
      ∷ []

  unfoldable pub one_element : D.Xml → Building → Run Building
  unfolding create_node text_eq lower
  one_element x b =
      let t = lower (D.tag_name x) in
      if D.is_element x
      then if text_eq (first_two t) (codes "ua")
        then create_node (from 2 t) x b
        else if is_among D t known_node_types
        then create_node t x b
        else done b
      else done b

  abbrev pub first_set : List D.Xml → Building → Run Building
  first_set [] b = done b
  first_set (set ∷ more) b = each one_element (D.child_nodes set) b

  -- `parseXML(xmldoc)`; reading the document and finding its elements "UANodeSet" is a parameter.
  unfoldable pub parse_xml : Result (List D.Xml) → Building → Run Building
  unfolding one_element
  parse_xml sets b = with_value sets b (λ found. first_set found b)
