-- ===== src/Namespace/Reorder.antt =====
-- `reorderNodesMinDependencies`, with `getNodeByBrowseName` and `getSubTypesOf`.
pub mod Matrix
pub mod Column
pub mod Fill
pub mod Least
pub mod Laws
use control_system_adapter_o.Prelude.{
  ℕ, zero, suc, ◌+◌, ◌-◌, ◌==◌, ◌&&◌, ◌||◌, not, Bool, true, false, Option, none, some, List, [],
  ◌∷◌, ◌++◌, if◌then◌else◌, ltb, leb,
}
use control_system_adapter_o.Prelude.Text.{Text, codes, text_eq}
use control_system_adapter_o.Prelude.Number.{ℤ, pos, negsuc}
use control_system_adapter_o.Prelude.Result.{
  Result, ok, err, attribute_error, value_error, type_error, ◌>>=◌,
}
use control_system_adapter_o.Namespace.Heap.{
  Target, nothing, unlinked, node, Reference, Node, Heap, references_of, is_node,
}
use control_system_adapter_o.Namespace.Reorder.Matrix.{
  MatrixRow, Found, get_min_weight_node, index, plus, minus,
}

-- `getNodeByBrowseName(idstring)`: the first of the matches
unfoldable pub get_node_by_browse_name : Heap → List ℕ → Text → Option ℕ
unfolding text_eq
get_node_by_browse_name h [] name = none
get_node_by_browse_name h (n ∷ ns) name =
    let rest = get_node_by_browse_name h ns name in
    if text_eq name (h.nodes n).browse_name then some n else rest

-- The loop of `getSubTypesOf` over the references of the node: `==` of two ids compares what `toString`
-- returns, which is `None` for all, and `getTypeDefinitionNodes`, which is called for a reference that
-- is found, does not exist. A type that is not linked has no `id`.
unfoldable pub collect_subtypes : List Reference → Result (List ℕ)
collect_subtypes [] = ok []
collect_subtypes (r ∷ rs) =
    let rest = collect_subtypes rs in if r.is_forward then err attribute_error else rest

-- `getSubTypesOf(currentNode=n)`
unfoldable pub get_sub_types_of : Heap → List ℕ → ℕ → Result (List ℕ)
unfolding collect_subtypes get_node_by_browse_name references_of
get_sub_types_of h ns n = elim (get_node_by_browse_name h ns (codes "HasSubtype")) [
  | none ↦ ok []
  | some _ ↦ collect_subtypes (references_of h n)
]

-- `typeRefs` and `subTypeRefs`: the node of that name with its subtypes
unfoldable pub type_refs : Heap → List ℕ → Text → Result (List ℕ)
unfolding get_sub_types_of
type_refs h ns name = elim (get_node_by_browse_name h ns name) [
  | none ↦ ok []
  | some n ↦ get_sub_types_of h ns n >>= λ ts. ok (n ∷ ts)
]

abbrev pub is_among : Target → List ℕ → Bool
is_among t [] = false
is_among t (n ∷ ns) = is_node n t || is_among t ns

-- What a reference adds: the row and the column, and the weight
pub record Weight : Type 0 where
  pub row : ℕ
  pub column : ℕ
  pub amount : ℕ

abbrev pub weight_of : List ℕ → List ℕ → Reference → ℕ → ℕ → Option Weight
weight_of type_nodes subtype_nodes r nind tind =
    if is_among r.reference_type type_nodes && r.is_forward
    then some (record { row = nind; column = tind; amount = 200 })
    else if is_among r.reference_type subtype_nodes && not r.is_forward
    then some (record { row = nind; column = tind; amount = 100 })
    else if r.is_forward
    then some (record { row = tind; column = nind; amount = 1 })
    else none

-- The body of the loops over `node.getReferences()`, up to the change of the matrix
abbrev pub weight_at : List ℕ → List ℕ → List ℕ → ℕ → Reference → Target → Result (Option Weight)
weight_at ns ts ss nind r nothing = ok none
weight_at ns ts ss nind r (unlinked _) = ok none
weight_at ns ts ss nind r (node t) = elim (index ns t) [
  | none ↦ err value_error
  | some tind ↦ ok (weight_of ts ss r nind tind)
]

abbrev pub change_weights : (ℤ → ℤ) → ℕ → List ℤ → List ℤ
change_weights f i [] = []
change_weights f zero (z ∷ zs) = f z ∷ zs
change_weights f (suc i) (z ∷ zs) = z ∷ change_weights f i zs

abbrev pub change_row : (MatrixRow → MatrixRow) → ℕ → List MatrixRow → List MatrixRow
change_row f i [] = []
change_row f zero (r ∷ rs) = f r ∷ rs
change_row f (suc i) (r ∷ rs) = r ∷ change_row f i rs

abbrev pub on_weight : (ℤ → ℕ → ℤ) → Option Weight → List MatrixRow → List MatrixRow
on_weight f none m = m
on_weight f (some w) m =
    change_row (λ r. record r { weights = change_weights (λ z. f z w.amount) w.column r.weights })
      w.row m

unfoldable pub weigh :
    (ℤ → ℕ → ℤ)
    → List ℕ
    → List ℕ
    → List ℕ
    → ℕ
    → List Reference
    → List MatrixRow
    → Result (List MatrixRow)
unfolding index
weigh f ns ts ss nind [] m = ok m
weigh f ns ts ss nind (r ∷ rs) m =
    weight_at ns ts ss nind r r.target >>= λ w. weigh f ns ts ss nind rs (on_weight f w m)

abbrev pub add : ℤ → ℕ → ℤ
add z n = plus z (pos n)

abbrev pub clear : MatrixRow → MatrixRow
clear r = record r { node = none }

abbrev pub zeros : List ℕ → List ℤ
zeros [] = []
zeros (_ ∷ ns) = pos 0 ∷ zeros ns

abbrev pub empty_rows : List ℕ → List ℕ → List MatrixRow
empty_rows all [] = []
empty_rows all (_ ∷ ns) = record { node = none; weights = zeros all } ∷ empty_rows all ns

abbrev pub at_index :
    Option ℕ → (ℕ → List MatrixRow → List MatrixRow) → List MatrixRow → List MatrixRow
at_index none f m = m
at_index (some i) f m = f i m

-- "Set column 0 to contain the node"
unfoldable pub fill_nodes : List ℕ → List ℕ → List MatrixRow → List MatrixRow
unfolding index
fill_nodes all [] m = m
fill_nodes all (n ∷ ns) m =
    fill_nodes all ns (at_index (index all n) (change_row (λ r. record r { node = some n })) m)

-- "Determine the dependencies of all nodes"
unfoldable pub weigh_all :
    Heap → List ℕ → List ℕ → List ℕ → List ℕ → List MatrixRow → Result (List MatrixRow)
unfolding index references_of weigh
weigh_all h all ts ss [] m = ok m
weigh_all h all ts ss (n ∷ ns) m = elim (index all n) [
  | none ↦ err value_error
  | some i ↦
      weigh add all ts ss i (references_of h n) m >>= λ changed. weigh_all h all ts ss ns changed
]

-- `while len(reorder) < len(self.nodes)`: each turn appends one node, so the number that is left is
-- the number of turns. Without a row that has a node left, `None` has no references.
unfoldable pub order :
    Heap → List ℕ → List ℕ → List ℕ → List ℕ → List MatrixRow → List ℕ → Result (List ℕ)
unfolding get_min_weight_node references_of weigh
order h all ts ss [] m done = ok done
order h all ts ss (_ ∷ left) m done = elim (get_min_weight_node m) [
  | none ↦ err attribute_error
  | some f ↦ weigh minus all ts ss f.index (references_of h f.node) m >>= λ changed.
      order h all ts ss left (change_row clear f.index changed) (done ++ (f.node ∷ []))
]

-- `reorderNodesMinDependencies()`: the new list of nodes
unfoldable pub reorder_nodes_min_dependencies : Heap → List ℕ → Result (List ℕ)
unfolding type_refs fill_nodes weigh_all order
reorder_nodes_min_dependencies h ns = type_refs h ns (codes "HasTypeDefinition") >>= λ ts.
    type_refs h ns (codes "HasSubtype") >>= λ ss.
    weigh_all h ns ts ss ns (fill_nodes ns ns (empty_rows ns ns)) >>= λ m. order h ns ts ss ns m []
