-- ===== src/Namespace/Create.antt =====
-- The nodes that are made from XML: what `xml.dom.minidom` gives, the attributes of a node, and
-- `initiateDummyXMLReferences` and `buildAliasList`.
pub mod Base
pub mod Kinds
pub mod Parse
pub mod Stable
pub mod Waiting
pub mod Classes
pub mod Indexed
pub mod Aliases
pub mod Files
pub mod Linked
use control_system_adapter_o.Prelude.{
  ℕ, suc, ◌+◌, Bool, true, false, ◌&&◌, ◌||◌, Option, none, some, List, [], ◌∷◌, ◌++◌,
  if◌then◌else◌,
}
use control_system_adapter_o.Prelude.Text.{Text, codes, text_eq, lower, is_in}
use control_system_adapter_o.Prelude.Number.{ℤ, pos, negsuc}
use control_system_adapter_o.Prelude.Result.{Run, done, raised, ◌▷◌, attribute_error}
use control_system_adapter_o.Namespace.Heap.{
  unlinked, Reference, new_reference, set_reference_type, Heap, put_reference, add_reference,
}
use control_system_adapter_o.Namespace.Space.{Space}

-- A statement for each element of a list
abbrev pub each {ℓ κ} : {X : Type ℓ} {S : Type κ} → (X → S → Run S) → List X → S → Run S
each f [] s = done s
each f (x ∷ xs) s = f x s ▷ each f xs

-- What the code reads of a document. Attributes and children that it takes away from an element are left
-- out of the lists that are passed on. `text_data` is there for texts only. Floating-point numbers are those
-- of Python.
pub record Dom : Type 1 where
  pub Xml : Type 0
  pub is_element : Xml → Bool
  pub tag_name : Xml → Text
  pub attributes : Xml → List (Text × Text)
  pub child_nodes : Xml → List Xml
  pub text_data : Xml → Option Text
  pub Float : Type 0
  pub float : Text → Option Float

-- The attributes that only some kinds of nodes have
module _ (D : Dom) where
  pub record VariableInfo : Type 0 where
    -- a reference that is not one of the node's references
    pub data_type : Option ℕ
    pub value_rank : ℤ
    -- `none` is the empty list
    pub array_dimensions : Option ℤ
    pub access_level : ℤ
    pub user_access_level : ℤ
    -- `none` is 0.0
    pub minimum_sampling_interval : Option D.Float
    pub historizing : Bool
    pub xml_value_def : Option D.Xml

  pub record VariableTypeInfo : Type 0 where
    pub data_type : Option ℕ
    pub value_rank : ℤ
    pub is_abstract : Bool
    pub xml_definition : Option D.Xml

  pub record DataTypeInfo : Type 0 where
    pub is_abstract : Bool
    pub xml_definition : Option D.Xml

  pub record ReferenceTypeInfo : Type 0 where
    pub is_abstract : Bool
    pub symmetric : Bool

  -- The classes of nodes; `inverseName` is an attribute of the node in the heap.
  pub data Kind : Type 0 where
    variable_node : VariableInfo → Kind
    object_node : Kind
    -- `__methodDecalaration__`
    method_node : Option ℕ → Kind
    -- `__isAbstract__`
    object_type_node : Bool → Kind
    variable_type_node : VariableTypeInfo → Kind
    data_type_node : DataTypeInfo → Kind
    reference_type_node : ReferenceTypeInfo → Kind

  pub record Details : Type 0 where
    pub kind : Kind
    pub display_name : Text
    pub description : Text
    pub write_mask : ℤ
    pub user_write_mask : ℤ

  -- A node while it is read, with the references, and the list of those that are to be linked later
  pub record Draft : Type 0 where
    pub heap : Heap
    pub link_later : List ℕ
    pub node : ℕ
    pub details : Details

  abbrev pub first_of : {A : Type 0} → List A → Option A
  first_of [] = none
  first_of (x ∷ xs) = some x

  abbrev pub data_of : Option D.Xml → Option Text
  data_of none = none
  data_of (some c) = D.text_data c

  -- `x.firstChild.data`; `none` is the `AttributeError`.
  unfoldable pub first_data : D.Xml → Option Text
  first_data x = data_of (first_of (D.child_nodes x))

  abbrev pub with_data {ℓ} : {S : Type ℓ} → Option Text → S → (Text → Run S) → Run S
  with_data none s f = raised attribute_error s
  with_data (some t) s f = f t

  -- A new reference of the node to a text, which is to be linked later
  unfoldable pub new_pointer : Text → Draft → Draft
  new_pointer t d = record d {
    heap =
        record (put_reference d.heap.next (new_reference (unlinked t) false (some d.node)) d.heap) {
          next = suc d.heap.next;
        };
    link_later = d.link_later ++ (d.heap.next ∷ []);
  }

  abbrev pub is_false : Text → Bool
  is_false t = is_in (codes "false") (lower t)

  -- An attribute of an element of the references; other attributes give a message.
  unfoldable pub reference_attribute : ℕ → Text × Text → Draft → Run Draft
  unfolding text_eq is_in lower
  reference_attribute r (at, av) d =
      if text_eq at (codes "ReferenceType")
      then done (record d {
        heap = put_reference r (set_reference_type (unlinked av) (d.heap.references r)) d.heap;
      })
      else if text_eq at (codes "IsForward") && is_false av
      then done (record d {
        heap = put_reference r (record (d.heap.references r) { is_forward = false }) d.heap;
      })
      else done d

  -- `self.addReference(dummy)` and `linkLater(dummy)` for the new reference
  unfoldable pub add_pointer : Text → Draft → Draft
  unfolding new_pointer add_reference
  add_pointer t d =
      let made = new_pointer t d in
      record made { heap = add_reference d.node d.heap.next made.heap }

  unfoldable pub one_reference : D.Xml → Draft → Run Draft
  unfolding first_data add_pointer reference_attribute
  one_reference x d =
      if D.is_element x
      then with_data (first_data x) d
          (λ t. each (reference_attribute d.heap.next) (D.attributes x) (add_pointer t d))
      else done d

  -- `initiateDummyXMLReferences(xmlelement)`
  unfoldable pub initiate_dummy_xml_references : D.Xml → Draft → Run Draft
  unfolding one_reference text_eq
  initiate_dummy_xml_references e d =
      if text_eq (D.tag_name e) (codes "References")
      then each one_reference (D.child_nodes e) d
      else done d

  abbrev pub attribute_of : List (Text × Text) → Text → Option Text
  attribute_of [] t = none
  attribute_of ((at, av) ∷ rest) t =
      let later = attribute_of rest t in if text_eq at t then some av else later

  abbrev pub has_alias : List (Text × Text) → Text → Bool
  has_alias [] t = false
  has_alias ((a, u) ∷ rest) t = text_eq a t || has_alias rest t

  -- A known alias keeps its definition.
  abbrev pub add_alias : Text → Text → Space → Space
  add_alias a u s =
      if has_alias s.aliases a then s else record s { aliases = s.aliases ++ ((a, u) ∷ []) }

  abbrev pub alias_named : D.Xml → Option Text → Space → Run Space
  alias_named x none s = done s
  alias_named x (some a) s = with_data (first_data x) s (λ u. done (add_alias a u s))

  unfoldable pub one_alias : D.Xml → Space → Run Space
  unfolding first_data text_eq
  one_alias x s =
      if D.is_element x
      then alias_named x (attribute_of (D.attributes x) (codes "Alias")) s
      else done s

  -- `buildAliasList(xmlelement)`
  unfoldable pub build_alias_list : D.Xml → Space → Run Space
  unfolding one_alias text_eq
  build_alias_list e s =
      if text_eq (D.tag_name e) (codes "Aliases")
      then each one_alias (D.child_nodes e) s
      else done s
