-- ===== src/Namespace/Space/Resolved.antt =====
-- The references that were linked are resolved.
use control_system_adapter_o.Prelude.{
  ℕ, ◌==◌, ◌&&◌, ◌≡◌, refl, Bool, true, false, Option, none, some, List, [], ◌∷◌, ◌++◌,
  if◌then◌else◌, arith, ==_iff, Bool-cases, inl, inr, ◌⊎◌,
}
use control_system_adapter_o.Prelude.Text.{Text}
use control_system_adapter_o.Prelude.Result.{Result, ok}
use control_system_adapter_o.Namespace.Heap.{
  Target, nothing, unlinked, node, Reference, set_target, set_reference_type, Heap, put_reference,
  member,
}
use control_system_adapter_o.Namespace.Space.{
  get_node_by_id_string, alias_of, is_id_text, found_target, found_type, link_target, link_type,
  Links,
}

abbrev pub IsLinked : List ℕ → Target → Type 0
IsLinked ns nothing = ⊥
IsLinked ns (unlinked t) = ⊥
IsLinked ns (node m) = member m ns ≡ true

abbrev pub IsTyped : List ℕ → Target → Type 0
IsTyped ns nothing = Unit {0}
IsTyped ns (unlinked t) = ⊥
IsTyped ns (node m) = member m ns ≡ true

-- The target is a node of the namespace, and so is the type, if there is one.
abbrev pub IsResolved : List ℕ → Reference → Type 0
IsResolved ns r = IsLinked ns r.target × IsTyped ns r.reference_type

get_node-member :
    (h : Heap) (ns : List ℕ) (t : Text) (n : ℕ)
    → get_node_by_id_string h ns t ≡ some n
    → member n ns ≡ true
unfolding get_node_by_id_string
get_node-member h [] t n e = ground arith
get_node-member h (m ∷ ns) t n e = ground (arith, get_node-member h ns t n)

found_target_lem :
    (ns : List ℕ) (o : Option ℕ) (r : Reference)
    → ((n : ℕ) → o ≡ some n → member n ns ≡ true)
    → (found_target o r).1 ≡ true
    → IsLinked ns (found_target o r).0.target
found_target_lem ns none r inside e = ground arith
found_target_lem ns (some n) r inside e = inside n refl

link_target_lem :
    (h : Heap) (ns : List ℕ) (al : List (Text × Text)) (r : Reference) (t : Target)
    → (link_target h ns al r t).1 ≡ true
    → IsLinked ns (link_target h ns al r t).0.target
unfolding link_target
link_target_lem h ns al r nothing e = ground arith
link_target_lem h ns al r (node m) e = ground arith
link_target_lem h ns al r (unlinked t) e = elim (Bool-cases (is_id_text (alias_of al t))) [
  | inl i ↦
      let t1 = alias_of al t in
      rw i (
        found_target_lem ns (get_node_by_id_string h ns t1) (set_target (unlinked t1) r)
          (λ n e1. get_node-member h ns t1 n e1) (rw i at e))
  | inr i ↦ ground arith
]

pub link_target-type :
    (h : Heap) (ns : List ℕ) (al : List (Text × Text)) (r : Reference) (t : Target)
    → (link_target h ns al r t).0.reference_type ≡ r.reference_type
unfolding link_target
link_target-type h ns al r nothing = refl
link_target-type h ns al r (node m) = refl
link_target-type h ns al r (unlinked t) = ground arith

found_type_lem :
    (ns : List ℕ) (o : Option ℕ) (r : Reference)
    → ((n : ℕ) → o ≡ some n → member n ns ≡ true)
    → (found_type o r).1 ≡ true
    → IsTyped ns (found_type o r).0.reference_type
found_type_lem ns none r inside e = ground arith
found_type_lem ns (some n) r inside e = inside n refl

found_type-target : (o : Option ℕ) (r : Reference) → (found_type o r).0.target ≡ r.target
found_type-target none r = refl
found_type-target (some n) r = refl

link_type_lem :
    (h : Heap) (ns : List ℕ) (al : List (Text × Text)) (r : Reference) (t : Target)
    (w : Reference × Bool)
    → r.reference_type ≡ t
    → link_type h ns al r t ≡ ok w
    → (w.0.target ≡ r.target) × (w.1 ≡ true → IsTyped ns w.0.reference_type)
unfolding link_type
link_type_lem h ns al r nothing w e k =
    let same : w ≡ (r, true) = cc in rw same (refl, λ _. rw e tt)
link_type_lem h ns al r (node m) w e k = ground arith
link_type_lem h ns al r (unlinked t) w e k =
    let t1 = alias_of al t in
    let o = get_node_by_id_string h ns t1 in
    let same : w ≡ found_type o (set_reference_type (unlinked t1) r) = cc in
    rw same (
      found_type-target o (set_reference_type (unlinked t1) r),
      λ linked.
          found_type_lem ns o (set_reference_type (unlinked t1) r)
            (λ n e1. get_node-member h ns t1 n e1) linked,
    )

-- A reference that is resolved stays as it is, or raises.
link_type-resolved :
    (h : Heap) (ns : List ℕ) (al : List (Text × Text)) (r : Reference) (t : Target)
    (w : Reference × Bool)
    → IsTyped ns t
    → link_type h ns al r t ≡ ok w
    → w.0 ≡ r
unfolding link_type
link_type-resolved h ns al r nothing w e k = ground arith
link_type-resolved h ns al r (node m) w e k = ground arith
link_type-resolved h ns al r (unlinked t) w e k = absurd e

link_target-resolved :
    (h : Heap) (ns : List ℕ) (al : List (Text × Text)) (r : Reference) (t : Target)
    → IsLinked ns t
    → link_target h ns al r t ≡ (r, false)
unfolding link_target
link_target-resolved h ns al r nothing e = absurd e
link_target-resolved h ns al r (node m) e = refl
link_target-resolved h ns al r (unlinked t) e = absurd e

-- What was linked so far is resolved.
abbrev pub Sound : List ℕ → Links → Type 0
Sound ns l = (x : ℕ) → member x l.linked ≡ true → IsResolved ns (l.heap.references x)

member-append :
    (x r : ℕ) (rs : List ℕ)
    → (x == r) ≡ false
    → member x (rs ++ (r ∷ [])) ≡ true
    → member x rs ≡ true
member-append x r [] e h = ground arith
member-append x r (s ∷ rs) e h = ground (arith, member-append x r rs)

-- What one reference becomes, when both its parts are linked
whole-IsResolved :
    (h : Heap) (ns : List ℕ) (al : List (Text × Text)) (r : Reference) (w : Reference × Bool)
    → link_type h ns al
        (link_target h ns al r r.target).0
        (link_target h ns al r r.target).0.reference_type
      ≡ ok w
    → w.1 ≡ true
    → (link_target h ns al r r.target).1 ≡ true
    → IsResolved ns w.0
whole-IsResolved h ns al r w k typed_now linked_now =
    let half = (link_target h ns al r r.target).0 in
    let one = link_type_lem h ns al half half.reference_type w refl k in
    (rw one.0 (link_target_lem h ns al r r.target linked_now), one.1 typed_now)

-- A resolved reference stays.
whole-same :
    (h : Heap) (ns : List ℕ) (al : List (Text × Text)) (r : Reference) (w : Reference × Bool)
    → link_type h ns al
        (link_target h ns al r r.target).0
        (link_target h ns al r r.target).0.reference_type
      ≡ ok w
    → IsResolved ns r
    → w.0 ≡ r
whole-same h ns al r w k resolved =
    let same = link_target-resolved h ns al r r.target resolved.0 in
    link_type-resolved h ns al r r.reference_type w resolved.1 (rw same at k)

-- The references in the list are those of before, and `r` if it was linked.
abbrev pub linked_with : List ℕ → ℕ → Bool → List ℕ
linked_with linked r now = if now then linked ++ (r ∷ []) else linked

linked_with-before :
    (x r : ℕ) (linked : List ℕ) (now : Bool)
    → member x (linked_with linked r now) ≡ true
    → (member x linked ≡ true) ⊎ ((x ≡ r) × (now ≡ true))
linked_with-before x r linked false h = inl h
linked_with-before x r linked true h = elim (Bool-cases (x == r)) [
  | inl e ↦ inr ((==_iff x r).0 e, refl)
  | inr e ↦ inl (member-append x r linked e h)
]

and-parts : (a b : Bool) → (a && b) ≡ true → (a ≡ true) × (b ≡ true)
and-parts true b h = (refl, h)
and-parts false b h = ground arith

-- The reference `r` behind linking its target, and with its type
abbrev pub half_of : Heap → List ℕ → List (Text × Text) → ℕ → Reference × Bool
half_of h ns al r = link_target h ns al (h.references r) (h.references r).target

abbrev pub whole_of : Heap → List ℕ → List (Text × Text) → ℕ → Result (Reference × Bool)
whole_of h ns al r = link_type h ns al (half_of h ns al r).0 (half_of h ns al r).0.reference_type

pub typed-Sound :
    (ns : List ℕ) (al : List (Text × Text)) (r : ℕ) (l : Links) (w : Reference × Bool)
    → Sound ns l
    → whole_of l.heap ns al r ≡ ok w
    → Sound ns (record {
      heap = put_reference r w.0 l.heap;
      linked = linked_with l.linked r (w.1 && (half_of l.heap ns al r).1);
    })
typed-Sound ns al r l w sound k x at =
    let before = linked_with-before x r l.linked (w.1 && (half_of l.heap ns al r).1) at in
    elim (Bool-cases (x == r)) [
      | inl e ↦ rw e (elim before [
        | inl old ↦
            let was = rw ((==_iff x r).0 e) at (sound x old) in
            rw (whole-same l.heap ns al (l.heap.references r) w k was) was
        | inr (_, now) ↦
            let both = and-parts w.1 (half_of l.heap ns al r).1 now in
            whole-IsResolved l.heap ns al (l.heap.references r) w k both.0 both.1
      ])
      | inr e ↦ rw e (elim before [ inl old ↦ sound x old | inr (same, _) ↦ ground arith ])
    ]
