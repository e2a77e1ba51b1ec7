-- ===== src/Namespace/Heap.antt =====
-- `opcua_referencePointer_t` and `opcua_node_t`: the attributes that the linking and the ordering of
-- nodes use, and the methods on references.
use control_system_adapter_o.Prelude.{
  ℕ, ◌==◌, ◌||◌, Bool, true, false, Option, some, List, [], ◌∷◌, ◌++◌, if◌then◌else◌,
}
use control_system_adapter_o.Prelude.Text.{Text}
use control_system_adapter_o.Namespace.NodeId.{NodeId}

-- What a reference holds as its target and as its type: `None`, a text that is not linked yet, or a node
pub data Target : Type 0 where
  nothing : Target
  unlinked : Text → Target
  node : ℕ → Target

pub record Reference : Type 0 where
  pub target : Target
  pub reference_type : Target
  pub is_forward : Bool
  pub is_hidden : Bool
  pub parent : Option ℕ

-- `opcua_referencePointer_t(target, hidden, parentNode)`
abbrev pub new_reference : Target → Bool → Option ℕ → Reference
new_reference t hidden p = record {
  target = t;
  reference_type = nothing;
  is_forward = true;
  is_hidden = hidden;
  parent = p;
}

-- `reference.target(data)` and `reference.referenceType(type)`: `None` sets nothing.
abbrev pub set_target : Target → Reference → Reference
set_target nothing r = r
set_target (unlinked t) r = record r { target = unlinked t }
set_target (node n) r = record r { target = node n }

abbrev pub set_reference_type : Target → Reference → Reference
set_reference_type nothing r = r
set_reference_type (unlinked t) r = record r { reference_type = unlinked t }
set_reference_type (node n) r = record r { reference_type = node n }

-- The references of a node are objects that the namespace's list of unlinked references holds too. The
-- references of the inverse list are made for it, are never changed, and stand in it as values.
pub record Node : Type 0 where
  pub id : NodeId
  pub browse_name : Text
  -- `inverseName()`, which only reference types have
  pub inverse_name : Option Text
  pub references : List ℕ
  pub referenced_by : List Reference

pub record Heap : Type 0 where
  pub nodes : ℕ → Node
  pub references : ℕ → Reference
  -- the number of references, which are those below it
  pub next : ℕ

-- `x in xs`, for objects
abbrev pub member : ℕ → List ℕ → Bool
member x [] = false
member x (y ∷ ys) = x == y || member x ys

abbrev pub put_node : ℕ → Node → Heap → Heap
put_node n x h = record h { nodes = λ m. if m == n then x else h.nodes m }

abbrev pub put_reference : ℕ → Reference → Heap → Heap
put_reference r x h = record h { references = λ s. if s == r then x else h.references s }

-- `addReference(ref)`
unfoldable pub add_reference : ℕ → ℕ → Heap → Heap
add_reference n r h =
    if member r (h.nodes n).references
    then h
    else put_node n (record (h.nodes n) { references = (h.nodes n).references ++ (r ∷ []) }) h

abbrev pub drop_first : ℕ → List ℕ → List ℕ
drop_first x [] = []
drop_first x (y ∷ ys) = if x == y then ys else y ∷ drop_first x ys

-- `removeReference(ref)`
unfoldable pub remove_reference : ℕ → ℕ → Heap → Heap
remove_reference n r h =
    if member r (h.nodes n).references
    then put_node n (record (h.nodes n) { references = drop_first r (h.nodes n).references }) h
    else h

abbrev pub is_node : ℕ → Target → Bool
is_node n nothing = false
is_node n (unlinked t) = false
is_node n (node m) = n == m

abbrev pub any_target : ℕ → List Reference → Bool
any_target n [] = false
any_target n (r ∷ rs) = is_node n r.target || any_target n rs

abbrev pub looked_up : (ℕ → Reference) → List ℕ → List Reference
looked_up object [] = []
looked_up object (r ∷ rs) = object r ∷ looked_up object rs

-- `n.getReferences()`
unfoldable pub references_of : Heap → ℕ → List Reference
references_of h n = looked_up h.references (h.nodes n).references

-- `n.hasReferenceTarget(node)`
unfoldable pub has_reference_target : Heap → ℕ → ℕ → Bool
unfolding references_of
has_reference_target h n m = any_target m (references_of h n)

-- `n.hasInverseReferenceTarget(node)`
unfoldable pub has_inverse_reference_target : Heap → ℕ → ℕ → Bool
has_inverse_reference_target h n m = any_target m (h.nodes n).referenced_by

-- `n.addInverseReferenceTarget(node)`. The first test looks for a node in a list of references, and
-- never finds it.
unfoldable pub add_inverse_reference_target : ℕ → ℕ → Heap → Heap
unfolding has_reference_target
add_inverse_reference_target n m h =
    if has_reference_target h n m
    then h
    else put_node n
        (record (h.nodes n) {
          referenced_by = (h.nodes n).referenced_by ++ (new_reference (node m) true (some n) ∷ []);
        })
        h

-- One step of `updateInverseReferences` of the node `n`
abbrev pub update_inverse : ℕ → Target → Heap → Heap
update_inverse n nothing h = h
update_inverse n (unlinked t) h = h
update_inverse n (node m) h =
    if has_inverse_reference_target h m n then h else add_inverse_reference_target m n h

abbrev pub update_inverses : ℕ → List Reference → Heap → Heap
update_inverses n [] h = h
update_inverses n (r ∷ rs) h = update_inverses n rs (update_inverse n r.target h)

-- `n.updateInverseReferences()`
unfoldable pub update_inverse_references : ℕ → Heap → Heap
unfolding references_of has_inverse_reference_target add_inverse_reference_target
update_inverse_references n h = update_inverses n (references_of h n) h

-- The loop of `linkOpenPointers` over all nodes
unfoldable pub update_all_inverse_references : List ℕ → Heap → Heap
unfolding update_inverse_references
update_all_inverse_references [] h = h
update_all_inverse_references (n ∷ ns) h =
    update_all_inverse_references ns (update_inverse_references n h)
