-- ===== src/Tests/Creating.antt =====
-- Nodes that are made from small documents.
use control_system_adapter_o.Prelude.{
  ◌≡◌, refl, Bool, true, false, Option, none, some, List, [], ◌∷◌,
}
use control_system_adapter_o.Prelude.Text.{Text, codes, text_eq}
use control_system_adapter_o.Prelude.Result.{Result, ok, done, state}
use control_system_adapter_o.Namespace.Heap.{nothing, Heap}
use control_system_adapter_o.Namespace.Space.{new_namespace}
use control_system_adapter_o.Namespace.Space.Linking.{IsLinkable}
use control_system_adapter_o.Namespace.Create.{each, Dom, object_node}
use control_system_adapter_o.Namespace.Create.Parse.{Building, parse_xml, blank_details, blank_node}
use control_system_adapter_o.Namespace.Create.Linked.{link_open_pointers-parse_files}
use control_system_adapter_o.Namespace.Create.Indexed.Unique.{IsIndexed}
use control_system_adapter_o.Namespace.Create.Indexed.Files.{parse_files-IsIndexed}
use control_system_adapter_o.Namespace.NodeId.{empty_id}

mutual
  data Doc : Type 0 where
    element : Text → List (Text × Text) → Docs → Doc
    words : Text → Doc

  data Docs : Type 0 where
    end : Docs
    more : Doc → Docs → Docs

abbrev is_an_element : Doc → Bool
is_an_element (element t attrs ds) = true
is_an_element (words t) = false

abbrev name_of : Doc → Text
name_of (element t attrs ds) = t
name_of (words t) = []

abbrev attributes_of : Doc → List (Text × Text)
attributes_of (element t attrs ds) = attrs
attributes_of (words t) = []

abbrev listed : Docs → List Doc
listed end = []
listed (more d ds) = d ∷ listed ds

abbrev children_of : Doc → List Doc
children_of (element t attrs ds) = listed ds
children_of (words t) = []

abbrev words_of : Doc → Option Text
words_of (element t attrs ds) = none
words_of (words t) = some t

abbrev documents : Dom
documents = record {
  Xml = Doc;
  is_element = is_an_element;
  tag_name = name_of;
  attributes = attributes_of;
  child_nodes = children_of;
  text_data = words_of;
  Float = Text;
  float = λ t. some t;
}

abbrev one : Text → Docs
one t = more (words t) end

abbrev references : Doc
references = element (codes "References") [] (
    more
      (element (codes "Reference")
        ((codes "ReferenceType", codes "i=40") ∷ (codes "IsForward", codes "false") ∷ [])
        (one (codes "i=61")))
      end)

abbrev title : Doc
title = element (codes "DisplayName") [] (one (codes "Objects"))

abbrev object_with : Docs → Doc
object_with ds =
    element (codes "UAObject")
      ((codes "NodeId", codes "i=85") ∷ (codes "BrowseName", codes "Objects") ∷ []) ds

abbrev folder_type : Doc
folder_type = element (codes "UAObjectType") ((codes "NodeId", codes "i=61") ∷ []) end

abbrev file : Docs → Result (List Doc)
file ds = ok (element (codes "UANodeSet") [] ds ∷ [])

-- The object is described twice.
abbrev spaced : Result (List Doc)
spaced = file (
    more (object_with (more title (more (words []) (more references end)))) (
      more folder_type
        (more (object_with (more title (more (words []) (more references end)))) end)))

abbrev empty_heap : Heap
empty_heap = record {
  nodes = λ n. blank_node documents empty_id object_node;
  references = λ r. record {
    target = nothing;
    reference_type = nothing;
    is_forward = true;
    is_hidden = false;
    parent = none;
  };
  next = 0;
}

abbrev start : Building documents
start = record {
  heap = empty_heap;
  space = new_namespace (codes "open62541") [];
  ends_with_none = false;
  nodeids = [];
  next_node = 0;
  details = λ n. blank_details documents object_node;
}

abbrev built : Building documents
built = state (each (parse_xml documents) (spaced ∷ []) start)

-- The second object takes the place of the first; the references of both wait.
spaced_nodes : (built.space.nodes ≡ 1 ∷ 2 ∷ []) × (built.space.link_later ≡ 0 ∷ 1 ∷ [])
unfolding parse_xml text_eq
spaced_nodes = (refl, refl)

-- Without white space the references are passed over.
lost_references :
    (state (
      parse_xml documents
        (file (more (object_with (more title (more references end))) end))
        start)).space.link_later
    ≡ []
unfolding parse_xml text_eq
lost_references = refl

reading_ends : each (parse_xml documents) (spaced ∷ []) start ≡ done built
unfolding parse_xml text_eq
reading_ends = refl

parse_files-IsIndexed_example : (built.ends_with_none ≡ false) × IsIndexed documents built
parse_files-IsIndexed_example =
    parse_files-IsIndexed documents (spaced ∷ []) start built reading_ends refl
      ((λ n at. cc), tt, (λ t. refl))

link_open_pointers-parse_files_example :
    (built.ends_with_none ≡ false) × IsLinkable built.heap built.space
link_open_pointers-parse_files_example =
    link_open_pointers-parse_files documents (spaced ∷ []) start built reading_ends refl
      ((λ r. tt), tt, (λ r at. cc))
