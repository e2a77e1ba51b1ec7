-- ===== src/Namespace/Create/Kinds.antt =====
-- `parseXMLSubType` of each class, on what is left of the attributes and children, and `parseXML`.
use control_system_adapter_o.Prelude.{
  ℕ, Bool, true, false, ◌&&◌, not, Option, none, some, List, [], ◌∷◌, if◌then◌else◌,
}
use control_system_adapter_o.Prelude.Text.{Text, codes, text_eq, lower, is_in}
use control_system_adapter_o.Prelude.Number.{ℤ, int}
use control_system_adapter_o.Prelude.Result.{
  Run, done, raised, ◌▷◌, read_int, name_error, value_error,
}
use control_system_adapter_o.Namespace.Create.{
  each, Dom, VariableInfo, VariableTypeInfo, DataTypeInfo, ReferenceTypeInfo, Kind, variable_node,
  object_node, method_node, object_type_node, variable_type_node, data_type_node,
  reference_type_node, Draft, first_data, with_data, new_pointer, is_false,
}
use control_system_adapter_o.Namespace.Create.Base.{
  with_kind, with_inverse_name, base_attribute, other_attributes, is_empty, looked_at,
  children_left, base_node,
}

module _ (D : Dom) where
  abbrev pub read_float : Text → Draft D → (D.Float → Draft D) → Run (Draft D)
  read_float t d put = elim (D.float t) [ none ↦ raised value_error d | some z ↦ done (put z) ]

  -- Attributes of a class; others give a message.
  unfoldable pub variable_attribute : VariableInfo D → Text × Text → Draft D → Run (Draft D)
  unfolding text_eq int read_int new_pointer
  variable_attribute i (at, av) d =
      if text_eq at (codes "ValueRank")
      then read_int (some av) d (λ z. with_kind D (variable_node (record i { value_rank = z })) d)
      else if text_eq at (codes "AccessLevel")
      then read_int (some av) d (λ z. with_kind D (variable_node (record i { access_level = z })) d)
      else if text_eq at (codes "UserAccessLevel")
      then read_int (some av) d
          (λ z. with_kind D (variable_node (record i { user_access_level = z })) d)
      else if text_eq at (codes "MinimumSamplingInterval")
      then read_float av d
          (λ z. with_kind D (variable_node (record i { minimum_sampling_interval = some z })) d)
      else if text_eq at (codes "DataType")
      then done (
          with_kind D (variable_node (record i { data_type = some d.heap.next }))
            (new_pointer D av d))
      else done d

  unfoldable pub variable_type_attribute :
      VariableTypeInfo D → Text × Text → Draft D → Run (Draft D)
  unfolding text_eq int read_int new_pointer is_in lower
  variable_type_attribute i (at, av) d =
      if text_eq at (codes "IsAbstract")
      then done
          (with_kind D (variable_type_node (record i { is_abstract = not (is_false D av) })) d)
      else if text_eq at (codes "ValueRank")
      then read_int (some av) d
          (λ z. with_kind D (variable_type_node (record i { value_rank = z })) d)
      else if text_eq at (codes "DataType")
      then done (
          with_kind D (variable_type_node (record i { data_type = some d.heap.next }))
            (new_pointer D av d))
      else done d

  unfoldable pub reference_type_attribute :
      ReferenceTypeInfo D → Text × Text → Draft D → Run (Draft D)
  unfolding text_eq is_in lower
  reference_type_attribute i (at, av) d =
      if text_eq at (codes "Symmetric")
      then done (with_kind D (reference_type_node (record i { symmetric = not (is_false D av) })) d)
      else if text_eq at (codes "InverseName")
      then done (with_inverse_name D av d)
      else if text_eq at (codes "IsAbstract")
      then done
          (with_kind D (reference_type_node (record i { is_abstract = not (is_false D av) })) d)
      else done d

  unfoldable pub method_attribute : Option ℕ → Text × Text → Draft D → Run (Draft D)
  unfolding text_eq new_pointer
  method_attribute o (at, av) d =
      if text_eq at (codes "MethodDeclarationId")
      then done (with_kind D (method_node (some d.heap.next)) (new_pointer D av d))
      else done d

  -- An object type never becomes abstract.
  unfoldable pub object_type_attribute : Bool → Text × Text → Draft D → Run (Draft D)
  unfolding text_eq is_in lower
  object_type_attribute b (at, av) d =
      if text_eq at (codes "IsAbstract") && is_false D av
      then done (with_kind D (object_type_node false) d)
      else done d

  -- The attribute of a data type is tested for the word "true".
  unfoldable pub data_type_attribute : DataTypeInfo D → Text × Text → Draft D → Run (Draft D)
  unfolding text_eq is_in lower
  data_type_attribute i (at, av) d =
      if text_eq at (codes "IsAbstract")
      then done (
          with_kind D (data_type_node (record i { is_abstract = is_in (codes "true") (lower av) }))
            d)
      else done d

  -- What the class of the node does to an attribute
  unfoldable pub class_attribute : Kind D → Text × Text → Draft D → Run (Draft D)
  unfolding variable_attribute variable_type_attribute reference_type_attribute method_attribute
      object_type_attribute data_type_attribute
  class_attribute (variable_node i) a d = variable_attribute i a d
  class_attribute object_node a d = done d
  class_attribute (method_node o) a d = method_attribute o a d
  class_attribute (object_type_node b) a d = object_type_attribute b a d
  class_attribute (variable_type_node i) a d = variable_type_attribute i a d
  class_attribute (data_type_node i) a d = data_type_attribute i a d
  class_attribute (reference_type_node i) a d = reference_type_attribute i a d

  unfoldable pub own_attribute : Text × Text → Draft D → Run (Draft D)
  unfolding class_attribute
  own_attribute a d = class_attribute d.details.kind a d

  abbrev pub last_value : List (Text × Text) → Option Text
  last_value [] = none
  last_value ((at, av) ∷ []) = some av
  last_value (a ∷ b ∷ rest) = last_value (b ∷ rest)

  -- `opcua_referencePointer_t(str(av), …)` behind the loop over the attributes: the value of the last
  -- one, or a name that has no value yet
  abbrev pub with_leftover : Option Text → VariableInfo D → Draft D → Run (Draft D)
  with_leftover none i d = raised name_error d
  with_leftover (some av) i d =
      done (
        with_kind D (variable_node (record i { data_type = some d.heap.next }))
          (new_pointer D av d))

  abbrev pub with_number : D.Xml → Draft D → (ℤ → VariableInfo D) → Run (Draft D)
  with_number x d put =
      with_data D (first_data D x) d
        (λ t. read_int (some t) d (λ z. with_kind D (variable_node (put z)) d))

  unfoldable pub variable_element :
      List (Text × Text) → VariableInfo D → D.Xml → Draft D → Run (Draft D)
  unfolding text_eq int read_int new_pointer is_in lower first_data
  variable_element attributes i x d =
      let tag = D.tag_name x in
      if text_eq tag (codes "Value")
      then done (with_kind D (variable_node (record i { xml_value_def = some x })) d)
      else if text_eq tag (codes "DataType")
      then with_leftover (last_value attributes) i d
      else if text_eq tag (codes "ValueRank")
      then with_number x d (λ z. record i { value_rank = z })
      else if text_eq tag (codes "ArrayDimensions")
      then with_number x d (λ z. record i { array_dimensions = some z })
      else if text_eq tag (codes "AccessLevel")
      then with_number x d (λ z. record i { access_level = z })
      else if text_eq tag (codes "UserAccessLevel")
      then with_number x d (λ z. record i { user_access_level = z })
      else if text_eq tag (codes "MinimumSamplingInterval")
      then with_data D (first_data D x) d (λ t.
        read_float t d
          (λ z. with_kind D (variable_node (record i { minimum_sampling_interval = some z })) d))
      else if text_eq tag (codes "Historizing")
      then with_data D (first_data D x) d (λ t. done (
          if is_in (codes "true") (lower t)
          then with_kind D (variable_node (record i { historizing = true })) d
          else d))
      else done d

  unfoldable pub variable_type_element : VariableTypeInfo D → D.Xml → Draft D → Run (Draft D)
  unfolding text_eq
  variable_type_element i x d =
      if text_eq (D.tag_name x) (codes "Definition")
      then done (with_kind D (variable_type_node (record i { xml_definition = some x })) d)
      else done d

  unfoldable pub data_type_element : DataTypeInfo D → D.Xml → Draft D → Run (Draft D)
  unfolding text_eq
  data_type_element i x d =
      if text_eq (D.tag_name x) (codes "Definition")
      then done (with_kind D (data_type_node (record i { xml_definition = some x })) d)
      else done d

  unfoldable pub reference_type_element : D.Xml → Draft D → Run (Draft D)
  unfolding text_eq first_data
  reference_type_element x d =
      if text_eq (D.tag_name x) (codes "InverseName") && not (is_empty D (D.child_nodes x))
      then with_data D (first_data D x) d (λ t. done (with_inverse_name D t d))
      else done d

  -- What the class of the node does to a child
  unfoldable pub class_element : List (Text × Text) → Kind D → D.Xml → Draft D → Run (Draft D)
  unfolding variable_element variable_type_element data_type_element reference_type_element
  class_element attributes (variable_node i) x d = variable_element attributes i x d
  class_element attributes (variable_type_node i) x d = variable_type_element i x d
  class_element attributes (data_type_node i) x d = data_type_element i x d
  class_element attributes (reference_type_node i) x d = reference_type_element x d
  class_element attributes k x d = done d

  unfoldable pub own_element : List (Text × Text) → D.Xml → Draft D → Run (Draft D)
  unfolding class_element
  own_element attributes x d =
      if D.is_element x then class_element attributes d.details.kind x d else done d

  -- `parseXMLSubType(xmlelement)`, on the attributes and children that are left
  unfoldable pub parse_xml_sub_type : List (Text × Text) → List D.Xml → Draft D → Run (Draft D)
  unfolding own_attribute own_element
  parse_xml_sub_type attributes children d =
      each own_attribute attributes d ▷ each (own_element attributes) children

  -- `parseXML(xmlelement)` of a node
  unfoldable pub parse_node : D.Xml → Draft D → Run (Draft D)
  unfolding base_attribute base_node parse_xml_sub_type other_attributes looked_at children_left
  parse_node e d = each (base_attribute D) (D.attributes e) d ▷ (λ d1.
      each (base_node D) (looked_at D false (D.child_nodes e)) d1
      ▷ parse_xml_sub_type (other_attributes D (D.attributes e))
          (children_left D false (D.child_nodes e)))
