-- ===== src/Namespace/Sanitize.antt =====
-- `sanitize` of nodes and of the namespace, and `getFirstParentNode`. What the kinds of nodes check in
-- `sanitizeSubType` is left out; the namespace only counts the results.
pub mod Healthy
use control_system_adapter_o.Prelude.{
  ℕ, zero, suc, ◌==◌, ◌&&◌, ◌||◌, not, Bool, true, false, Option, none, some, List, [], ◌∷◌, ◌++◌,
  if◌then◌else◌,
}
use control_system_adapter_o.Prelude.Result.{
  Result, ok, err, Run, done, raised, ◌▷◌, with_value, ◌>>=◌, attribute_error,
}
use control_system_adapter_o.Namespace.Heap.{
  Target, nothing, unlinked, node, Reference, Node, Heap, put_node, is_node, any_target,
  references_of, has_reference_target,
}

-- `isinstance(…, opcua_node_t)`
abbrev pub is_a_node : Target → Bool
is_a_node nothing = false
is_a_node (unlinked t) = false
is_a_node (node n) = true

abbrev pub is_valid : Reference → Bool
is_valid r = is_a_node r.reference_type && is_a_node r.target

-- "Remove unlinked references"
unfoldable pub valid_references : (ℕ → Reference) → List ℕ → List ℕ
valid_references object [] = []
valid_references object (r ∷ rs) =
    let rest = valid_references object rs in if is_valid (object r) then r ∷ rest else rest

-- The target of an inverse reference is a node that references the node `n`.
unfoldable pub references_back : Heap → ℕ → Target → Bool
unfolding has_reference_target
references_back h n nothing = false
references_back h n (unlinked t) = false
references_back h n (node m) = has_reference_target h m n

-- "Make sure that every inverse referenced node actually does reference us"
unfoldable pub true_inverses : Heap → ℕ → List Reference → List Reference
unfolding references_back
true_inverses h n [] = []
true_inverses h n (r ∷ rs) =
    let rest = true_inverses h n rs in if references_back h n r.target then r ∷ rest else rest

unfoldable pub is_own_target : Heap → ℕ → Target → Bool
unfolding has_reference_target
is_own_target h n nothing = false
is_own_target h n (unlinked t) = false
is_own_target h n (node m) = has_reference_target h n m

-- "Remove references from inverse list if we can reach this not the regular way": the message about
-- such a reference reads `r.target.id`, which a method does not have.
unfoldable pub necessary_inverses : Heap → ℕ → List Reference → Result (List Reference)
unfolding is_own_target
necessary_inverses h n [] = ok []
necessary_inverses h n (r ∷ rs) =
    let rest = necessary_inverses h n rs in
    if is_own_target h n r.target then err attribute_error else rest >>= λ kept. ok (r ∷ kept)

abbrev pub with_valid_references : ℕ → Heap → Heap
with_valid_references n h =
    put_node n
      (record (h.nodes n) { references = valid_references h.references (h.nodes n).references }) h

abbrev pub with_referenced_by : ℕ → List Reference → Heap → Heap
with_referenced_by n rs h = put_node n (record (h.nodes n) { referenced_by = rs }) h

abbrev pub with_true_inverses : ℕ → Heap → Heap
with_true_inverses n h = with_referenced_by n (true_inverses h n (h.nodes n).referenced_by) h

-- `n.sanitize()`
unfoldable pub sanitize_node : ℕ → Heap → Run Heap
unfolding valid_references true_inverses necessary_inverses
sanitize_node n h =
    let h1 = with_valid_references n h in
    let h2 = with_true_inverses n h1 in
    with_value (necessary_inverses h2 n (h2.nodes n).referenced_by) h2
      (λ rs. done (with_referenced_by n rs h2))

-- The loop of the namespace's `sanitize()`: no node is removed.
unfoldable pub sanitize_all : List ℕ → Heap → Run Heap
unfolding sanitize_node
sanitize_all [] h = done h
sanitize_all (n ∷ ns) h = sanitize_node n h ▷ sanitize_all ns

-- The first reference of the parent to the node `n`
unfoldable pub first_reference_to : ℕ → List Reference → Option Reference
first_reference_to n [] = none
first_reference_to n (r ∷ rs) =
    let rest = first_reference_to n rs in if is_node n r.target then some r else rest

abbrev pub Parent : Type 0
Parent = Option ℕ × Option Reference

abbrev pub same_flag : Bool → Bool → Bool
same_flag a b = if a then b else not b

-- The body of the loop over references for a parent that was found: the tuple is returned when it has a
-- reference
abbrev pub from_parent :
    Heap → ℕ → Target → (Option ℕ → Result (Parent × Bool)) → Result (Parent × Bool)
from_parent h n nothing rest = err attribute_error
from_parent h n (unlinked t) rest = err attribute_error
from_parent h n (node m) rest =
    let back = first_reference_to n (references_of h m) in
    elim back [ none ↦ rest (some m) | some r ↦ ok ((some m, some r), true) ]

-- The loop for one of the two values of `hiddenstatus`; the flag says that a tuple is returned.
unfoldable pub parent_among : Heap → ℕ → Bool → List Reference → Option ℕ → Result (Parent × Bool)
unfolding first_reference_to references_of
parent_among h n hidden [] parent = ok ((parent, none), false)
parent_among h n hidden (r ∷ rs) parent =
    if same_flag hidden r.is_hidden && not r.is_forward
    then from_parent h n r.target (parent_among h n hidden rs)
    else parent_among h n hidden rs parent

-- `n.getFirstParentNode()`
unfoldable pub get_first_parent_node : Heap → ℕ → Result Parent
unfolding parent_among references_of
get_first_parent_node h n = parent_among h n false (references_of h n) none >>= λ shown.
    if shown.1
    then ok shown.0
    else parent_among h n true (references_of h n) shown.0.0 >>= λ hidden. ok hidden.0
