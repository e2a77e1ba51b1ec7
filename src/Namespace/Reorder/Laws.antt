-- ===== src/Namespace/Reorder/Laws.antt =====
-- Reordering the nodes gives each node once.
use control_system_adapter_o.Prelude.{
  ℕ, zero, suc, ◌+◌, ◌<◌, ◌==◌, ◌≡◌, refl, ap, ◌∙◌, true, Option, none, some, List, [], ◌∷◌, ◌++◌,
  arith, Bool-cases, Option-cases, inl, inr,
}
use control_system_adapter_o.Prelude.Text.{codes}
use control_system_adapter_o.Prelude.Number.{ℤ}
use control_system_adapter_o.Prelude.Result.{ok}
use control_system_adapter_o.Namespace.Heap.{
  Target, nothing, unlinked, node, Reference, Heap, references_of, member,
}
use control_system_adapter_o.Namespace.Reorder.Matrix.{MatrixRow, get_min_weight_node, index, minus}
use control_system_adapter_o.Namespace.Reorder.{
  weight_at, weigh, on_weight, change_row, change_weights, clear, add, weigh_all, order, Weight,
  weight_of, fill_nodes, empty_rows, type_refs, reorder_nodes_min_dependencies,
}
use control_system_adapter_o.Namespace.Reorder.Column.{
  occurrences, length, column, remaining, total, emptied, column-clear, remaining-total,
  occurrences-append, held_somewhere, nothing_left, remaining_held, emptied-Taken,
}
use control_system_adapter_o.Namespace.Reorder.Fill.{
  IsDistinct, column-fill_nodes, remaining-full, total-full, occurrences-member,
}

-- Every target that is a node is one of the nodes.
abbrev pub IsKnown : List ℕ → Target → Type 0
IsKnown ns nothing = Unit {0}
IsKnown ns (unlinked t) = Unit {0}
IsKnown ns (node t) = member t ns ≡ true

abbrev pub AreKnown : List ℕ → List Reference → Type 0
AreKnown ns [] = Unit {0}
AreKnown ns (r ∷ rs) = IsKnown ns r.target × AreKnown ns rs

index-member : (ns : List ℕ) (n : ℕ) → member n ns ≡ true → (i : ℕ) × (index ns n ≡ some i)
unfolding index
index-member [] n h = ground arith
index-member (m ∷ ms) n h = elim (Bool-cases (m == n)) [
  | inl e ↦ (0, rw e refl)
  | inr e ↦ let rest = index-member ms n (ground arith) in (suc rest.0, rw (e, rest.1) refl)
]

column-change :
    (f : MatrixRow → MatrixRow) (keeps : (r : MatrixRow) → (f r).node ≡ r.node) (i : ℕ)
    (m : List MatrixRow)
    → column (change_row f i m) ≡ column m
column-change f keeps i [] = refl
column-change f keeps zero (r ∷ rs) = rw (keeps r) refl
column-change f keeps (suc i) (r ∷ rs) = ap (λ os. r.node ∷ os) (column-change f keeps i rs)

column-on_weight :
    (f : ℤ → ℕ → ℤ) (w : Option Weight) (m : List MatrixRow) → column (on_weight f w m) ≡ column m
column-on_weight f none m = refl
column-on_weight f (some w) m =
    column-change
      (λ r. record r { weights = change_weights (λ z. f z w.amount) w.column r.weights })
      (λ r. refl) w.row m

weight_at-ok :
    (ns ts ss : List ℕ) (nind : ℕ) (r : Reference) (t : Target)
    → IsKnown ns t
    → (w : Option Weight) × (weight_at ns ts ss nind r t ≡ ok w)
weight_at-ok ns ts ss nind r nothing h = (none, refl)
weight_at-ok ns ts ss nind r (unlinked t) h = (none, refl)
weight_at-ok ns ts ss nind r (node t) h =
    let known = index-member ns t h in
    (weight_of ts ss r nind known.0, rw (weight_at, known.1) refl)

-- The weights change, and the column of the nodes stays.
weigh-ok :
    (f : ℤ → ℕ → ℤ) (ns ts ss : List ℕ) (nind : ℕ) (rs : List Reference) (m : List MatrixRow)
    → AreKnown ns rs
    → (changed : List MatrixRow) × (weigh f ns ts ss nind rs m ≡ ok changed)
      × (column changed ≡ column m)
unfolding weigh
weigh-ok f ns ts ss nind [] m h = (m, refl, refl)
weigh-ok f ns ts ss nind (r ∷ rs) m h =
    let w = weight_at-ok ns ts ss nind r r.target h.0 in
    let rest = weigh-ok f ns ts ss nind rs (on_weight f w.0 m) h.1 in
    (rest.0, rw w.1 rest.1, rest.2 ∙ column-on_weight f w.0 m)

weigh_all-ok :
    (h : Heap) (all ts ss ns : List ℕ) (m : List MatrixRow)
    → ((n : ℕ) → member n all ≡ true → AreKnown all (references_of h n))
    → ((n : ℕ) → member n ns ≡ true → member n all ≡ true)
    → (changed : List MatrixRow) × (weigh_all h all ts ss ns m ≡ ok changed)
      × (column changed ≡ column m)
unfolding weigh_all
weigh_all-ok h all ts ss [] m known inside = (m, refl, refl)
weigh_all-ok h all ts ss (n ∷ ns) m known inside =
    let at = inside n (ground arith) in
    let i = index-member all n at in
    let w = weigh-ok add all ts ss i.0 (references_of h n) m (known n at) in
    let rest = weigh_all-ok h all ts ss ns w.0 known (λ k e. inside k (ground arith)) in
    (rest.0, rw (weigh_all, i.1, w.1) rest.1, rest.2 ∙ w.2)

order-ok :
    (h : Heap) (all ts ss left : List ℕ) (m : List MatrixRow) (done : List ℕ)
    → ((x : ℕ) → 0 < remaining x (column m) → AreKnown all (references_of h x))
    → total (column m) ≡ length left
    → (r : List ℕ) × (order h all ts ss left m done ≡ ok r)
      × ((x : ℕ) → occurrences x r ≡ occurrences x done + remaining x (column m))
unfolding order
order-ok h all ts ss [] m done known e =
    (done, refl, λ x. rw (remaining-total x (column m) e) (omega arith))
order-ok h all ts ss (_ ∷ left) m done known e = elim (Option-cases (get_min_weight_node m)) [
  | inl missing ↦ let gone = nothing_left m missing in absurd (omega arith)
  | inr (f, got) ↦
      let held = held_somewhere m f got in
      let w =
        weigh-ok minus all ts ss f.index (references_of h f.node) m
          (known f.node (remaining_held (column m) f.index f.node held)) in
      let kept = column-clear w.0 f.index ∙ ap (λ os. emptied os f.index) w.2 in
      let less =
        emptied-Taken (column m) (column (change_row clear f.index w.0)) f.index f.node held kept in
      let rest =
        order-ok h all ts ss left (change_row clear f.index w.0) (done ++ (f.node ∷ []))
          (λ x e1. known x (omega (arith, less.0 x))) (omega (arith, less.1)) in
      (
        rest.0,
        rw (order, got, w.1) rest.1,
        λ x. omega (arith, rest.2 x, less.0 x, occurrences-append x done (f.node ∷ [])),
      )
]

-- When the nodes are distinct, the targets that their references hold are among them, and the search
-- for the two reference types and their subtypes does not raise, the reordering does not raise either,
-- and the new list has every node as often as the old one.
pub reorder-IsPermutation :
    (h : Heap) (ns ts ss : List ℕ)
    → IsDistinct ns
    → ((n : ℕ) → member n ns ≡ true → AreKnown ns (references_of h n))
    → type_refs h ns (codes "HasTypeDefinition") ≡ ok ts
    → type_refs h ns (codes "HasSubtype") ≡ ok ss
    → (r : List ℕ) × (reorder_nodes_min_dependencies h ns ≡ ok r)
      × ((x : ℕ) → occurrences x r ≡ occurrences x ns)
unfolding reorder_nodes_min_dependencies
reorder-IsPermutation h ns ts ss distinct known e f =
    let m = weigh_all-ok h ns ts ss ns (fill_nodes ns ns (empty_rows ns ns)) known (λ n e. e) in
    let start = m.2 ∙ column-fill_nodes ns distinct in
    let all : (x : ℕ) → remaining x (column m.0) ≡ occurrences x ns =
      λ x. ap (remaining x) start ∙ remaining-full x ns in
    let rest =
      order-ok h ns ts ss ns m.0 []
        (λ x some_left. known x (occurrences-member x ns (omega (arith, all x))))
        (ap total start ∙ total-full ns) in
    (rest.0, rw (e, f, m.1) rest.1, λ x. omega (arith, rest.2 x, all x))
