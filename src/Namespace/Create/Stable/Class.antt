-- ===== src/Namespace/Create/Stable/Class.antt =====
-- `parseXMLSubType` of each class, and `parseXML`.
use control_system_adapter_o.Prelude.{
  refl, Bool, true, false, ◌&&◌, not, Option, none, some, List, if◌then◌else◌,
}
use control_system_adapter_o.Prelude.Text.{Text, codes, text_eq, lower, is_in}
use control_system_adapter_o.Prelude.Number.{ℤ}
use control_system_adapter_o.Prelude.Result.{Run, done, raised, state, ◌▷◌, read_int, value_error}
use control_system_adapter_o.Namespace.Create.{
  each, Dom, VariableInfo, VariableTypeInfo, ReferenceTypeInfo, Kind, variable_node, object_node,
  method_node, object_type_node, variable_type_node, data_type_node, reference_type_node, Draft,
  first_data, is_false, new_pointer,
}
use control_system_adapter_o.Namespace.Create.Base.{
  with_kind, base_attribute, base_node, is_empty, looked_at, children_left, other_attributes,
}
use control_system_adapter_o.Namespace.Create.Kinds.{
  read_float, variable_attribute, variable_type_attribute, reference_type_attribute,
  class_attribute, own_attribute, last_value, with_leftover, with_number, variable_element,
  class_element, own_element, method_attribute, object_type_attribute, data_type_attribute,
  variable_type_element, data_type_element, reference_type_element, parse_xml_sub_type, parse_node,
}
use control_system_adapter_o.Namespace.Create.Stable.{
  IsStable, Kept, if-Kept, int-Kept, then-Kept, each-Kept, data-Kept, base_attribute-Kept,
  base_node-Kept,
}

module _ (D : Dom) (P : Draft D → Type 0) (stable : IsStable D P) where
  abbrev Holds : Run (Draft D) → Type 0
  Holds = Kept D P stable

  either : (b : Bool) (r s : Run (Draft D)) → Holds r → Holds s → Holds (if b then r else s)
  either = if-Kept D P stable

  kind : (k : Kind D) (d : Draft D) → P d → P (with_kind D k d)
  kind k d h = stable.details _ d h

  number :
      (t : Text) (d : Draft D) (put : ℤ → Kind D)
      → P d
      → Holds (read_int (some t) d (λ z. with_kind D (put z) d))
  number t d put h = int-Kept D P stable t d (λ z. with_kind D (put z) d) h (λ z. kind (put z) d h)

  pointed : (t : Text) (k : Kind D) (d : Draft D) → P d → P (with_kind D k (new_pointer D t d))
  pointed t k d h = kind k (new_pointer D t d) (stable.pointer t d h)

  fraction :
      (t : Text) (d : Draft D) (put : D.Float → Draft D)
      → P d
      → ((z : D.Float) → P (put z))
      → Holds (read_float D t d put)
  fraction t d put h k = next (D.float t)
    where
      next :
          (o : Option D.Float)
          → Holds (elim o [ none ↦ raised value_error d | some z ↦ done (put z) ])
      next none = h
      next (some z) = k z

  variable_attribute-Kept :
      (i : VariableInfo D) (a : Text × Text) (d : Draft D)
      → P d
      → Holds (variable_attribute D i a d)
  unfolding variable_attribute
  variable_attribute-Kept i (at, av) d h =
      either (text_eq at (codes "ValueRank")) _ _ (number av d _ h) (
        either (text_eq at (codes "AccessLevel")) _ _ (number av d _ h) (
          either (text_eq at (codes "UserAccessLevel")) _ _ (number av d _ h) (
            either (text_eq at (codes "MinimumSamplingInterval")) _ _
              (fraction av d _ h (λ z. kind _ d h))
              (either (text_eq at (codes "DataType")) _ _ (pointed av _ d h) h))))

  variable_type_attribute-Kept :
      (i : VariableTypeInfo D) (a : Text × Text) (d : Draft D)
      → P d
      → Holds (variable_type_attribute D i a d)
  unfolding variable_type_attribute
  variable_type_attribute-Kept i (at, av) d h =
      either (text_eq at (codes "IsAbstract")) _ _ (kind _ d h) (
        either (text_eq at (codes "ValueRank")) _ _ (number av d _ h)
          (either (text_eq at (codes "DataType")) _ _ (pointed av _ d h) h))

  reference_type_attribute-Kept :
      (i : ReferenceTypeInfo D) (a : Text × Text) (d : Draft D)
      → P d
      → Holds (reference_type_attribute D i a d)
  unfolding reference_type_attribute
  reference_type_attribute-Kept i (at, av) d h =
      either (text_eq at (codes "Symmetric")) _ _ (kind _ d h) (
        either (text_eq at (codes "InverseName")) _ _ (stable.node _ d refl h)
          (either (text_eq at (codes "IsAbstract")) _ _ (kind _ d h) h))

  class_attribute-Kept :
      (k : Kind D) (a : Text × Text) (d : Draft D) → P d → Holds (class_attribute D k a d)
  unfolding class_attribute method_attribute object_type_attribute data_type_attribute
  class_attribute-Kept (variable_node i) a d h = variable_attribute-Kept i a d h
  class_attribute-Kept object_node a d h = h
  class_attribute-Kept (method_node o) (at, av) d h =
      either (text_eq at (codes "MethodDeclarationId")) _ _ (pointed av _ d h) h
  class_attribute-Kept (object_type_node b) (at, av) d h =
      either (text_eq at (codes "IsAbstract") && is_false D av) _ _ (kind _ d h) h
  class_attribute-Kept (variable_type_node i) a d h = variable_type_attribute-Kept i a d h
  class_attribute-Kept (data_type_node i) (at, av) d h =
      either (text_eq at (codes "IsAbstract")) _ _ (kind _ d h) h
  class_attribute-Kept (reference_type_node i) a d h = reference_type_attribute-Kept i a d h

  with_leftover-Kept :
      (o : Option Text) (i : VariableInfo D) (d : Draft D) → P d → Holds (with_leftover D o i d)
  with_leftover-Kept none i d h = h
  with_leftover-Kept (some av) i d h = pointed av _ d h

  with_number-Kept :
      (x : D.Xml) (d : Draft D) (put : ℤ → VariableInfo D) → P d → Holds (with_number D x d put)
  with_number-Kept x d put h =
      data-Kept D P stable (first_data D x) d
        (λ t. read_int (some t) d (λ z. with_kind D (variable_node (put z)) d)) h
        (λ t. number t d _ h)

  if-P : (b : Bool) (d e : Draft D) → P d → P e → P (if b then d else e)
  if-P true d e h k = h
  if-P false d e h k = k

  variable_element-Kept :
      (attributes : List (Text × Text)) (i : VariableInfo D) (x : D.Xml) (d : Draft D)
      → P d
      → Holds (variable_element D attributes i x d)
  unfolding variable_element
  variable_element-Kept attributes i x d h =
      let tag = D.tag_name x in
      either (text_eq tag (codes "Value")) _ _ (kind _ d h) (
        either (text_eq tag (codes "DataType")) _ _
          (with_leftover-Kept (last_value D attributes) i d h)
          (either (text_eq tag (codes "ValueRank")) _ _ (with_number-Kept x d _ h) (
            either (text_eq tag (codes "ArrayDimensions")) _ _ (with_number-Kept x d _ h) (
              either (text_eq tag (codes "AccessLevel")) _ _ (with_number-Kept x d _ h) (
                either (text_eq tag (codes "UserAccessLevel")) _ _ (with_number-Kept x d _ h) (
                  either (text_eq tag (codes "MinimumSamplingInterval")) _ _
                    (data-Kept D P stable (first_data D x) d _ h
                      (λ t. fraction t d _ h (λ z. kind _ d h)))
                    (either (text_eq tag (codes "Historizing")) _ _
                      (data-Kept D P stable (first_data D x) d _ h
                        (λ t. if-P (is_in (codes "true") (lower t)) _ _ (kind _ d h) h))
                      h)))))))

  class_element-Kept :
      (attributes : List (Text × Text)) (k : Kind D) (x : D.Xml) (d : Draft D)
      → P d
      → Holds (class_element D attributes k x d)
  unfolding class_element variable_type_element data_type_element reference_type_element
  class_element-Kept attributes (variable_node i) x d h = variable_element-Kept attributes i x d h
  class_element-Kept attributes (variable_type_node i) x d h =
      either (text_eq (D.tag_name x) (codes "Definition")) _ _ (kind _ d h) h
  class_element-Kept attributes (data_type_node i) x d h =
      either (text_eq (D.tag_name x) (codes "Definition")) _ _ (kind _ d h) h
  class_element-Kept attributes (reference_type_node i) x d h =
      either (text_eq (D.tag_name x) (codes "InverseName") && not (is_empty D (D.child_nodes x))) _
        _ (data-Kept D P stable (first_data D x) d _ h (λ t. stable.node _ d refl h)) h
  class_element-Kept attributes k x d h = h

  own_attribute-Kept : (a : Text × Text) (d : Draft D) → P d → Holds (own_attribute D a d)
  unfolding own_attribute
  own_attribute-Kept a d h = class_attribute-Kept d.details.kind a d h

  own_element-Kept :
      (attributes : List (Text × Text)) (x : D.Xml) (d : Draft D)
      → P d
      → Holds (own_element D attributes x d)
  unfolding own_element
  own_element-Kept attributes x d h =
      either (D.is_element x) _ _ (class_element-Kept attributes d.details.kind x d h) h

  parse_xml_sub_type-Kept :
      (attributes : List (Text × Text)) (children : List D.Xml) (d : Draft D)
      → P d
      → Holds (parse_xml_sub_type D attributes children d)
  unfolding parse_xml_sub_type
  parse_xml_sub_type-Kept attributes children d h =
      then-Kept D P stable (each (own_attribute D) attributes d)
        (each (own_element D attributes) children)
        (each-Kept D P stable (own_attribute D) own_attribute-Kept attributes d h)
        (λ e k.
          each-Kept D P stable (own_element D attributes) (own_element-Kept attributes) children e
            k)

  -- What every step of reading a node keeps is kept by `parseXML`, also when it raises an exception.
  pub parse_node-Kept : (x : D.Xml) (d : Draft D) → P d → P (state (parse_node D x d))
  unfolding parse_node
  parse_node-Kept x d h =
      then-Kept D P stable (each (base_attribute D) (D.attributes x) d)
        (λ d1.
          each (base_node D) (looked_at D false (D.child_nodes x)) d1
          ▷ parse_xml_sub_type D (other_attributes D (D.attributes x))
              (children_left D false (D.child_nodes x)))
        (each-Kept D P stable (base_attribute D) (base_attribute-Kept D P stable) (D.attributes x) d
          h)
        (λ d1 k.
          then-Kept D P stable (each (base_node D) (looked_at D false (D.child_nodes x)) d1)
            (parse_xml_sub_type D (other_attributes D (D.attributes x))
              (children_left D false (D.child_nodes x)))
            (each-Kept D P stable (base_node D) (base_node-Kept D P stable)
              (looked_at D false (D.child_nodes x)) d1 k)
            (λ e l. parse_xml_sub_type-Kept _ _ e l))
