-- ===== src/Namespace/Space/Linking.antt =====
-- What `linkOpenPointers` leaves unlinked, and what it links.
use control_system_adapter_o.Prelude.{
  ℕ, ◌<◌, ◌==◌, ◌&&◌, ◌≡◌, refl, Bool, true, false, List, [], ◌∷◌, arith, ==_iff, Bool-cases, inl,
  inr, ◌⊎◌,
}
use control_system_adapter_o.Prelude.Text.{Text}
use control_system_adapter_o.Prelude.Result.{ok, done}
use control_system_adapter_o.Namespace.Heap.{
  Target, nothing, unlinked, node, Reference, set_reference_type, Heap, put_reference, member,
  drop_first, update_all_inverse_references,
}
use control_system_adapter_o.Namespace.Reorder.Fill.{IsDistinct}
use control_system_adapter_o.Namespace.Space.{
  Space, get_node_by_id_string, alias_of, found_type, link_type, Links, link_one, link_all,
  remove_each, link_open_pointers, invert_all,
}
use control_system_adapter_o.Namespace.Space.Objects.{invert_all-Keeps, update_all-objects}
use control_system_adapter_o.Namespace.Space.Progress.{
  CanResolve, link_all-progress, remove_each-gone,
}
use control_system_adapter_o.Namespace.Space.Resolved.{
  IsResolved, Sound, linked_with, half_of, typed-Sound, link_target-type,
}

-- No type, or one that is not linked yet
abbrev pub IsUntyped : Target → Type 0
IsUntyped nothing = Unit {0}
IsUntyped (unlinked t) = Unit {0}
IsUntyped (node m) = ⊥

link_type-ok :
    (h : Heap) (ns : List ℕ) (al : List (Text × Text)) (r : Reference) (t : Target)
    → IsUntyped t
    → (w : Reference × Bool) × (link_type h ns al r t ≡ ok w)
unfolding link_type
link_type-ok h ns al r nothing u = ((r, true), refl)
link_type-ok h ns al r (unlinked t) u = (
  found_type (get_node_by_id_string h ns (alias_of al t))
      (set_reference_type (unlinked (alias_of al t)) r),
  refl,
)
link_type-ok h ns al r (node m) u = absurd u

apart : (x r : ℕ) (rs : List ℕ) → member r rs ≡ false → member x rs ≡ true → (x == r) ≡ false
apart x r rs new at = elim (Bool-cases (x == r)) [
  | inl e ↦ let there = rw ((==_iff x r).0 e) at at in ground arith
  | inr e ↦ e
]

put-IsUntyped :
    (h : Heap) (r : ℕ) (o : Reference) (rs : List ℕ)
    → member r rs ≡ false
    → ((x : ℕ) → member x (r ∷ rs) ≡ true → IsUntyped (h.references x).reference_type)
    → (x : ℕ) → member x rs ≡ true
    → IsUntyped ((put_reference r o h).references x).reference_type
put-IsUntyped h r o rs new untyped x at = rw (apart x r rs new at) (untyped x (ground arith))

link_all-ok :
    (ns : List ℕ) (al : List (Text × Text)) (rs : List ℕ) (l : Links)
    → IsDistinct rs
    → ((x : ℕ) → member x rs ≡ true → IsUntyped (l.heap.references x).reference_type)
    → Sound ns l
    → (end : Links) × (link_all ns al rs l ≡ done end)
      × Sound ns end
      × (end.heap.next ≡ l.heap.next)
unfolding link_all link_one
link_all-ok ns al [] l distinct untyped sound = (l, refl, sound, refl)
link_all-ok ns al (r ∷ rs) l distinct untyped sound =
    let free = untyped r (ground arith) in
    let half = half_of l.heap ns al r in
    let w = link_type-ok l.heap ns al half.0 half.0.reference_type (
      rw (link_target-type l.heap ns al (l.heap.references r) (l.heap.references r).target) free) in
    let l1 : Links = record {
      heap = put_reference r w.0.0 l.heap;
      linked = linked_with l.linked r (w.0.1 && half.1);
    } in
    let rest =
      link_all-ok ns al rs l1 distinct.1 (put-IsUntyped l.heap r w.0.0 rs distinct.0 untyped)
        (typed-Sound ns al r l w.0 sound w.1) in
    (rest.0, rw (link_all, link_one, w.1) rest.1, rest.2, rest.3)

drop_first-member :
    (x r : ℕ) (rs : List ℕ)
    → (x == r) ≡ false
    → member x rs ≡ true
    → member x (drop_first r rs) ≡ true
drop_first-member x r [] e h = ground arith
drop_first-member x r (s ∷ rs) e h = ground (arith, drop_first-member x r rs)

-- A reference that is not left was linked.
remove_each-member :
    (x : ℕ) (rs linked : List ℕ)
    → member x rs ≡ true
    → (member x (remove_each rs linked) ≡ true) ⊎ (member x linked ≡ true)
remove_each-member x rs [] h = inl h
remove_each-member x rs (l ∷ linked) h = elim (Bool-cases (x == l)) [
  | inl e ↦ inr (rw e refl)
  | inr e ↦ elim (remove_each-member x (drop_first l rs) linked (drop_first-member x l rs e h)) [
    | inl left ↦ inl left
    | inr found ↦ inr (rw (e, found) refl)
  ]
]

-- `linkOpenPointers` does not raise. Each reference that waited still waits, or is resolved; one whose
-- texts stand for nodes does not wait any more.
abbrev pub IsLinkable : Heap → Space → Type 0
IsLinkable h s =
    (end : Heap × Space) × (link_open_pointers h s ≡ done end)
    × ((r : ℕ)
        → member r s.link_later ≡ true
        → ((member r end.1.link_later ≡ true) ⊎ IsResolved s.nodes (end.0.references r))
          × (CanResolve h s.nodes s.aliases r → member r end.1.link_later ≡ false))

-- When the references that wait for linking are distinct objects whose types are not nodes yet,
-- `linkOpenPointers` does not raise, and afterwards each of them still waits, or has a node of the
-- namespace as its target, and another as its type, unless it has no type. A reference does not wait any
-- more if its target, and its type, unless it has none, are texts that stand, as they are or as aliases,
-- for ids of nodes of the namespace.
pub link_open_pointers-IsResolved :
    (h : Heap) (s : Space)
    → IsDistinct s.link_later
    → ((r : ℕ)
        → member r s.link_later ≡ true
        → (r < h.next) × IsUntyped (h.references r).reference_type)
    → IsLinkable h s
unfolding link_open_pointers
link_open_pointers-IsResolved h s distinct waiting =
    let run =
      link_all-ok s.nodes s.aliases s.link_later (record { heap = h; linked = [] }) distinct
        (λ x at. (waiting x at).1) (λ x at. ground arith) in
    let h1 = invert_all s.nodes run.0.heap in
    let kept = invert_all-Keeps s.nodes run.0.heap in
    let same = update_all-objects s.nodes h1 in
    (
      (
        update_all_inverse_references s.nodes h1,
        record s { link_later = remove_each s.link_later run.0.linked },
      ),
      rw (link_open_pointers, run.1) refl,
      λ r at. (
        elim (remove_each-member r s.link_later run.0.linked at) [
          | inl left ↦ inl left
          | inr found ↦
              let old : r < run.0.heap.next = omega (arith, run.3, (waiting r at).0) in
              inr (rw (same, kept.0 r old) (run.2 r found))
        ],
        λ can. remove_each-gone r s.link_later run.0.linked distinct (
            link_all-progress s.nodes s.aliases r s.link_later (record { heap = h; linked = [] })
              run.0 distinct run.1 at can),
      ),
    )
