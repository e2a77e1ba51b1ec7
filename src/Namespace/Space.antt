-- ===== src/Namespace/Space.antt =====
-- `opcua_namespace`: its state, the lookup of nodes, the slots of indirect pointers, and the linking of
-- references.
pub mod Resolved
pub mod Objects
pub mod Linking
pub mod Progress
use control_system_adapter_o.Prelude.{
  ℕ, zero, suc, ◌+◌, ◌==◌, ◌&&◌, ◌||◌, not, Bool, true, false, Option, none, some, List, [], ◌∷◌,
  ◌++◌, if◌then◌else◌,
}
use control_system_adapter_o.Prelude.Text.{Text, codes, text_eq}
use control_system_adapter_o.Prelude.Number.{ℤ, pos, negsuc}
use control_system_adapter_o.Prelude.Result.{
  Result, ok, err, Run, done, raised, ◌▷◌, type_error, name_error,
}
use control_system_adapter_o.Namespace.NodeId.{node_id_text, first_two}
use control_system_adapter_o.Namespace.Heap.{
  Target, nothing, unlinked, node, Reference, new_reference, set_target, set_reference_type, Heap,
  put_reference, put_node, add_reference, references_of, member, drop_first,
  update_all_inverse_references,
}
use control_system_adapter_o.Namespace.Reorder.Matrix.{index}

pub record Space : Type 0 where
  pub nodes : List ℕ
  pub aliases : List (Text × Text)
  -- `__linkLater__`, which all namespaces share
  pub link_later : List ℕ
  pub binary_indirect_pointers : List ℕ
  pub name : Text
  pub namespace_identifiers : List (ℤ × Text)

-- `opcua_namespace(name)`, with the list that is shared
abbrev pub new_namespace : Text → List ℕ → Space
new_namespace name shared = record {
  nodes = [];
  aliases = [];
  link_later = shared;
  binary_indirect_pointers = [];
  name = name;
  namespace_identifiers = [];
}

abbrev pub int_eq : ℤ → ℤ → Bool
int_eq (pos m) (pos n) = m == n
int_eq (pos m) (negsuc n) = false
int_eq (negsuc m) (pos n) = false
int_eq (negsuc m) (negsuc n) = m == n

abbrev pub set_identifier : ℤ → Text → List (ℤ × Text) → List (ℤ × Text)
set_identifier z url [] = (z, url) ∷ []
set_identifier z url ((y, u) ∷ ids) =
    let rest = set_identifier z url ids in if int_eq y z then (z, url) ∷ ids else (y, u) ∷ rest

-- `addNamespace(numericId, stringURL)`
unfoldable pub add_namespace : ℤ → Text → Space → Space
add_namespace z url s = record s {
  namespace_identifiers = set_identifier z url s.namespace_identifiers;
}

-- `linkLater(pointer)`
unfoldable pub link_later_add : ℕ → Space → Space
link_later_add r s = record s { link_later = s.link_later ++ (r ∷ []) }

-- `unlinkedItemCount()`
unfoldable pub unlinked_item_count : List ℕ → ℕ
unlinked_item_count [] = 0
unlinked_item_count (r ∷ rs) = suc (unlinked_item_count rs)

-- `getNodeByIDString(idstring)`: the first of the matches
unfoldable pub get_node_by_id_string : Heap → List ℕ → Text → Option ℕ
unfolding text_eq node_id_text
get_node_by_id_string h [] t = none
get_node_by_id_string h (n ∷ ns) t =
    let rest = get_node_by_id_string h ns t in
    if text_eq t (node_id_text (h.nodes n).id) then some n else rest

-- `removeNodeById(nodeId)`: with an inverse reference, `removeReferenceToNode` reads a name that it does
-- not have.
unfoldable pub remove_node_by_id : Heap → Text → Space → Run Space × Bool
unfolding get_node_by_id_string
remove_node_by_id h t s = elim (get_node_by_id_string h s.nodes t) [
  | none ↦ (done s, false)
  | some n ↦
      let removed = record s { nodes = drop_first n s.nodes } in
      elim (h.nodes n).referenced_by [
        | [] ↦ (done removed, true)
        | _ ∷ _ ↦ (raised name_error removed, false)
      ]
]

abbrev pub or_length : Option ℕ → List ℕ → ℕ
or_length none ns = unlinked_item_count ns
or_length (some i) ns = i

-- `registerBinaryIndirectPointer(node)`: the slots behind it, and the node's slot
unfoldable pub register_binary_indirect_pointer : ℕ → Space → Space × ℕ
unfolding index unlinked_item_count
register_binary_indirect_pointer n s =
    let slots = s.binary_indirect_pointers in
    (
      if member n slots then s else record s { binary_indirect_pointers = slots ++ (n ∷ []) },
      or_length (index slots n) slots,
    )

-- `getBinaryIndirectPointerIndex(node)`
unfoldable pub get_binary_indirect_pointer_index : ℕ → Space → ℤ
unfolding index
get_binary_indirect_pointer_index n s = elim (index s.binary_indirect_pointers n) [
  | none ↦ negsuc 0
  | some i ↦ pos i
]

unfoldable pub alias_of : List (Text × Text) → Text → Text
unfolding text_eq
alias_of [] t = t
alias_of ((a, u) ∷ rest) t = let below = alias_of rest t in if text_eq a t then u else below

abbrev pub first_three : Text → Text
first_three [] = []
first_three (c ∷ t) = c ∷ first_two t

-- The test for the text of an id
unfoldable pub is_id_text : Text → Bool
unfolding text_eq
is_id_text t =
    text_eq (first_two t) (codes "i=")
    || text_eq (first_two t) (codes "g=")
    || text_eq (first_two t) (codes "b=")
    || text_eq (first_two t) (codes "s=")
    || text_eq (first_three t) (codes "ns=")

abbrev pub found_target : Option ℕ → Reference → Reference × Bool
found_target none r = (r, false)
found_target (some n) r = (set_target (node n) r, true)

-- The target of a reference, and whether it was linked now: a target that is a node was not.
unfoldable pub link_target :
    Heap → List ℕ → List (Text × Text) → Reference → Target → Reference × Bool
unfolding alias_of is_id_text get_node_by_id_string
link_target h ns aliases r nothing = (r, false)
link_target h ns aliases r (node m) = (r, false)
link_target h ns aliases r (unlinked t) =
    let aliased = alias_of aliases t in
    let r1 = set_target (unlinked aliased) r in
    if is_id_text aliased then found_target (get_node_by_id_string h ns aliased) r1 else (r1, false)

abbrev pub found_type : Option ℕ → Reference → Reference × Bool
found_type none r = (r, false)
found_type (some n) r = (set_reference_type (node n) r, true)

-- The type of a reference: no type is as good as a linked one; a node is looked up by its own text, is
-- not found, and raises in the message.
unfoldable pub link_type :
    Heap → List ℕ → List (Text × Text) → Reference → Target → Result (Reference × Bool)
unfolding alias_of get_node_by_id_string
link_type h ns aliases r nothing = ok (r, true)
link_type h ns aliases r (node m) = err type_error
link_type h ns aliases r (unlinked t) =
    let aliased = alias_of aliases t in
    ok (found_type (get_node_by_id_string h ns aliased) (set_reference_type (unlinked aliased) r))

-- The heap, and the list `linked`
pub record Links : Type 0 where
  pub heap : Heap
  pub linked : List ℕ

abbrev pub typed : ℕ → Reference → Bool → Links → Result (Reference × Bool) → Run Links
typed r half target_linked l (err e) = raised e (record l { heap = put_reference r half l.heap })
typed r half target_linked l (ok (whole, type_linked)) = done (record {
  heap = put_reference r whole l.heap;
  linked = if type_linked && target_linked then l.linked ++ (r ∷ []) else l.linked;
})

-- The body of the loop over the references that are to be linked
unfoldable pub link_one : List ℕ → List (Text × Text) → ℕ → Links → Run Links
unfolding link_target link_type
link_one ns aliases r l =
    let object = l.heap.references r in
    let half = link_target l.heap ns aliases object object.target in
    typed r half.0 half.1 l (link_type l.heap ns aliases half.0 half.0.reference_type)

unfoldable pub link_all : List ℕ → List (Text × Text) → List ℕ → Links → Run Links
unfolding link_one
link_all ns aliases [] l = done l
link_all ns aliases (r ∷ rs) l = link_one ns aliases r l ▷ link_all ns aliases rs

-- A reference that is not forward gives a forward one from its target.
abbrev pub inverted : ℕ → Reference → ℕ → Reference
inverted n r m = set_reference_type r.reference_type (new_reference (node n) false (some m))

abbrev pub invert_to : ℕ → Reference → Target → Heap → Heap
invert_to n r nothing h = h
invert_to n r (unlinked t) h = h
invert_to n r (node m) h =
    add_reference m h.next (record (put_reference h.next (inverted n r m) h) { next = suc h.next })

abbrev pub invert_each : ℕ → List Reference → Heap → Heap
invert_each n [] h = h
invert_each n (r ∷ rs) h = invert_each n rs (if r.is_forward then h else invert_to n r r.target h)

-- "References marked as not forward must be inverted". A reference that is added to the list while it is
-- looked at is forward.
unfoldable pub invert_all : List ℕ → Heap → Heap
unfolding references_of add_reference
invert_all [] h = h
invert_all (n ∷ ns) h = invert_all ns (invert_each n (references_of h n) h)

abbrev pub remove_each : List ℕ → List ℕ → List ℕ
remove_each rs [] = rs
remove_each rs (l ∷ linked) = remove_each (drop_first l rs) linked

abbrev pub after_links : Space → Run Links → Run (Heap × Space)
after_links s (raised e l) = raised e (l.heap, s)
after_links s (done l) = done (
  update_all_inverse_references s.nodes (invert_all s.nodes l.heap),
  record s { link_later = remove_each s.link_later l.linked },
)

-- `linkOpenPointers()`
unfoldable pub link_open_pointers : Heap → Space → Run (Heap × Space)
unfolding link_all invert_all update_all_inverse_references
link_open_pointers h s =
    after_links s (link_all s.nodes s.aliases s.link_later (record { heap = h; linked = [] }))
