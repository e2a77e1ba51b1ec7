-- ===== src/Namespace/Space/Progress.antt =====
-- References whose texts stand for nodes of the namespace are linked.
use control_system_adapter_o.Prelude.{
  ℕ, ◌==◌, ◌&&◌, ◌≡◌, refl, sym, ap, ◌∙◌, Bool, true, false, some, List, [], ◌∷◌, if◌then◌else◌,
  arith, ==_iff, Bool-cases, inl, inr,
}
use control_system_adapter_o.Prelude.Text.{Text, text_eq}
use control_system_adapter_o.Prelude.Result.{Result, ok, err, Run, done, ◌▷◌}
use control_system_adapter_o.Namespace.NodeId.{node_id_text}
use control_system_adapter_o.Namespace.Heap.{
  Target, nothing, unlinked, node, Reference, set_reference_type, Heap, put_reference, member,
  drop_first,
}
use control_system_adapter_o.Namespace.Reorder.Fill.{IsDistinct}
use control_system_adapter_o.Namespace.Space.{
  get_node_by_id_string, alias_of, is_id_text, found_type, link_target, link_type, Links, typed,
  link_one, link_all, remove_each,
}
use control_system_adapter_o.Namespace.Space.Resolved.{linked_with, half_of, link_target-type}

abbrev pub IsKnown : Heap → List ℕ → Text → Type 0
IsKnown h ns t = (n : ℕ) × (get_node_by_id_string h ns t ≡ some n)

-- A target: a text that stands, as it is or as an alias, for the id of a node
abbrev pub CanLink : Heap → List ℕ → List (Text × Text) → Target → Type 0
CanLink h ns al nothing = ⊥
CanLink h ns al (unlinked t) = (is_id_text (alias_of al t) ≡ true) × IsKnown h ns (alias_of al t)
CanLink h ns al (node n) = ⊥

-- A type: none, or a text that stands for the id of a node
abbrev pub CanType : Heap → List ℕ → List (Text × Text) → Target → Type 0
CanType h ns al nothing = Unit {0}
CanType h ns al (unlinked t) = IsKnown h ns (alias_of al t)
CanType h ns al (node n) = ⊥

abbrev pub CanResolve : Heap → List ℕ → List (Text × Text) → ℕ → Type 0
CanResolve h ns al r =
    CanLink h ns al (h.references r).target × CanType h ns al (h.references r).reference_type

-- The search for nodes does not look at references.
get_node-put :
    (h : Heap) (r : ℕ) (o : Reference) (ns : List ℕ) (t : Text)
    → get_node_by_id_string (put_reference r o h) ns t ≡ get_node_by_id_string h ns t
unfolding get_node_by_id_string
get_node-put h r o [] t = refl
get_node-put h r o (n ∷ ns) t =
    ap (λ x. if text_eq t (node_id_text (h.nodes n).id) then some n else x)
      (get_node-put h r o ns t)

IsKnown-put :
    (h : Heap) (r : ℕ) (o : Reference) (ns : List ℕ) (t : Text)
    → IsKnown h ns t
    → IsKnown (put_reference r o h) ns t
IsKnown-put h r o ns t k = (k.0, get_node-put h r o ns t ∙ k.1)

CanLink-put :
    (h : Heap) (r : ℕ) (o : Reference) (ns : List ℕ) (al : List (Text × Text)) (t : Target)
    → CanLink h ns al t
    → CanLink (put_reference r o h) ns al t
CanLink-put h r o ns al nothing k = k
CanLink-put h r o ns al (unlinked t) k = (k.0, IsKnown-put h r o ns (alias_of al t) k.1)
CanLink-put h r o ns al (node n) k = k

CanType-put :
    (h : Heap) (r : ℕ) (o : Reference) (ns : List ℕ) (al : List (Text × Text)) (t : Target)
    → CanType h ns al t
    → CanType (put_reference r o h) ns al t
CanType-put h r o ns al nothing k = k
CanType-put h r o ns al (unlinked t) k = IsKnown-put h r o ns (alias_of al t) k
CanType-put h r o ns al (node n) k = k

CanResolve-put :
    (h : Heap) (x r : ℕ) (o : Reference) (ns : List ℕ) (al : List (Text × Text))
    → (x == r) ≡ false
    → CanResolve h ns al x
    → CanResolve (put_reference r o h) ns al x
CanResolve-put h x r o ns al e k =
    rw e (CanLink-put h r o ns al _ k.0, CanType-put h r o ns al _ k.1)

link_target-found :
    (h : Heap) (ns : List ℕ) (al : List (Text × Text)) (o : Reference) (t : Target)
    → CanLink h ns al t
    → (link_target h ns al o t).1 ≡ true
unfolding link_target
link_target-found h ns al o nothing k = absurd k
link_target-found h ns al o (unlinked t) k = rw (k.0, k.1.1) refl
link_target-found h ns al o (node n) k = absurd k

link_type-found :
    (h : Heap) (ns : List ℕ) (al : List (Text × Text)) (o : Reference) (t : Target)
    (w : Reference × Bool)
    → CanType h ns al t
    → link_type h ns al o t ≡ ok w
    → w.1 ≡ true
unfolding link_type
link_type-found h ns al o nothing w k e = let same : w ≡ (o, true) = cc in rw same refl
link_type-found h ns al o (unlinked t) w k e =
    let same : w
        ≡ found_type (get_node_by_id_string h ns (alias_of al t))
            (set_reference_type (unlinked (alias_of al t)) o) =
      cc in
    rw (same, k.1) refl
link_type-found h ns al o (node n) w k e = absurd k

member-linked_with :
    (x r : ℕ) (linked : List ℕ) (b : Bool)
    → member x linked ≡ true
    → member x (linked_with linked r b) ≡ true
member-linked_with x r linked false h = h
member-linked_with x r [] true h = absurd (ground arith)
member-linked_with x r (s ∷ linked) true h = ground (arith, member-linked_with x r linked true)

linked_with-here : (r : ℕ) (linked : List ℕ) → member r (linked_with linked r true) ≡ true
linked_with-here r [] = ground (arith, ==_iff r r)
linked_with-here r (s ∷ linked) = ground (arith, linked_with-here r linked)

-- The state behind a reference
abbrev behind : ℕ → Bool → Links → Reference × Bool → Links
behind r target_linked l w = record {
  heap = put_reference r w.0 l.heap;
  linked = linked_with l.linked r (w.1 && target_linked);
}

typed-done :
    (r : ℕ) (half : Reference) (b : Bool) (l : Links) (o : Result (Reference × Bool))
    (f : Links → Run Links) (end : Links)
    → (typed r half b l o ▷ f) ≡ done end
    → (w : Reference × Bool) × (o ≡ ok w) × (f (behind r b l w) ≡ done end)
typed-done r half b l (ok w) f end h = (w, refl, h)
typed-done r half b l (err x) f end h = cc

-- What was linked stays in the list.
link_all-linked :
    (ns : List ℕ) (al : List (Text × Text)) (x : ℕ) (rs : List ℕ) (l end : Links)
    → link_all ns al rs l ≡ done end
    → member x l.linked ≡ true
    → member x end.linked ≡ true
unfolding link_all link_one
link_all-linked ns al x [] l end e h = let same : l ≡ end = cc in rw (sym same) h
link_all-linked ns al x (r ∷ rs) l end e h =
    let half = half_of l.heap ns al r in
    let step = typed-done r half.0 half.1 l _ (link_all ns al rs) end e in
    link_all-linked ns al x rs (behind r half.1 l step.0) end step.2
      (member-linked_with x r l.linked (step.0.1 && half.1) h)

pub link_all-progress :
    (ns : List ℕ) (al : List (Text × Text)) (x : ℕ) (rs : List ℕ) (l end : Links)
    → IsDistinct rs
    → link_all ns al rs l ≡ done end
    → member x rs ≡ true
    → CanResolve l.heap ns al x
    → member x end.linked ≡ true
unfolding link_all link_one
link_all-progress ns al x [] l end d e at can = absurd (ground arith)
link_all-progress ns al x (r ∷ rs) l end d e at can =
    let half = half_of l.heap ns al r in
    let step = typed-done r half.0 half.1 l _ (link_all ns al rs) end e in
    elim (Bool-cases (x == r)) [
      | inl here ↦
          let own : CanResolve l.heap ns al r = rw (sym ((==_iff x r).0 here)) can in
          let target_found : half.1 ≡ true =
            link_target-found l.heap ns al (l.heap.references r) (l.heap.references r).target
              own.0 in
          let type_found : step.0.1 ≡ true =
            link_type-found l.heap ns al half.0 half.0.reference_type step.0
              (rw (link_target-type l.heap ns al (l.heap.references r) (l.heap.references r).target)
                own.1)
              step.1 in
          link_all-linked ns al x rs (behind r half.1 l step.0) end step.2
            (rw ((==_iff x r).0 here, type_found, target_found) (linked_with-here r l.linked))
      | inr later ↦
          link_all-progress ns al x rs (behind r half.1 l step.0) end d.1 step.2
            (ground (arith, later)) (CanResolve-put l.heap x r step.0.0 ns al later can)
    ]

-- A reference that was linked does not wait any more.
drop_first-absent :
    (x r : ℕ) (rs : List ℕ) → member x rs ≡ false → member x (drop_first r rs) ≡ false
drop_first-absent x r [] h = ground arith
drop_first-absent x r (s ∷ rs) h = ground (arith, drop_first-absent x r rs)

drop_first-IsDistinct : (r : ℕ) (rs : List ℕ) → IsDistinct rs → IsDistinct (drop_first r rs)
drop_first-IsDistinct r [] d = tt
drop_first-IsDistinct r (s ∷ rs) d = elim (Bool-cases (r == s)) [
  | inl e ↦ rw e d.1
  | inr e ↦ rw e (drop_first-absent s r rs d.0, drop_first-IsDistinct r rs d.1)
]

drop_first-gone : (r : ℕ) (rs : List ℕ) → IsDistinct rs → member r (drop_first r rs) ≡ false
drop_first-gone r [] d = ground arith
drop_first-gone r (s ∷ rs) d = elim (Bool-cases (r == s)) [
  | inl e ↦ rw e (rw ((==_iff r s).0 e) d.0)
  | inr e ↦ rw e (ground (arith, e, drop_first-gone r rs d.1))
]

remove_each-absent :
    (x : ℕ) (rs linked : List ℕ) → member x rs ≡ false → member x (remove_each rs linked) ≡ false
remove_each-absent x rs [] h = h
remove_each-absent x rs (l ∷ linked) h =
    remove_each-absent x (drop_first l rs) linked (drop_first-absent x l rs h)

pub remove_each-gone :
    (x : ℕ) (rs linked : List ℕ)
    → IsDistinct rs
    → member x linked ≡ true
    → member x (remove_each rs linked) ≡ false
remove_each-gone x rs [] d h = absurd (ground arith)
remove_each-gone x rs (l ∷ linked) d h = elim (Bool-cases (x == l)) [
  | inl e ↦
      remove_each-absent x (drop_first l rs) linked
        (rw (sym ((==_iff x l).0 e)) (drop_first-gone x rs d))
  | inr e ↦
      remove_each-gone x (drop_first l rs) linked (drop_first-IsDistinct l rs d) (ground (arith, e))
]
