-- ===== src/Namespace/Create/Indexed/Unique.antt =====
-- The nodes that are made from XML have different ids, and the dictionary has just these.
use control_system_adapter_o.Prelude.{
  ℕ, suc, ◌<◌, ◌==◌, ◌≡◌, refl, sym, ap, ◌∙◌, true, false, not, ◌||◌, ◌&&◌, some, List, [], ◌∷◌,
  ◌++◌, arith, ==_iff, Bool-cases, inl, inr,
}
use control_system_adapter_o.Prelude.Text.{Text, text_eq, text_eq_iff}
use control_system_adapter_o.Prelude.Result.{Run, done, raised, state}
use control_system_adapter_o.Namespace.NodeId.{NodeId, node_id_text}
use control_system_adapter_o.Namespace.Heap.{Node, Heap, member, put_node}
use control_system_adapter_o.Namespace.Space.{get_node_by_id_string}
use control_system_adapter_o.Namespace.Create.{Dom, Kind, Draft, new_pointer}
use control_system_adapter_o.Namespace.Create.Stable.{IsStable}
use control_system_adapter_o.Namespace.Create.Parse.{
  Building, blank_node, new_draft, with_node, without_node, replace, has_key, without_key,
}
use control_system_adapter_o.Namespace.Create.Indexed.{
  id_text, has_id, HasDistinctIds, has_id-snoc, has_id-cong, HasDistinctIds-cong,
  HasDistinctIds-snoc, get_node-id_text, get_node-some, member-drop_first, has_id-drop_first,
  HasDistinctIds-drop_first, has_key-without_key, has_key-snoc,
}

module _ (D : Dom) where
  -- The nodes are older than the next one, no two have the same id, and the keys of the dictionary are
  -- just their ids.
  abbrev pub IsIndexed : Building D → Type 0
  IsIndexed b =
      ((n : ℕ) → member n b.space.nodes ≡ true → n < b.next_node)
      × HasDistinctIds b.heap b.space.nodes
      × ((t : Text) → has_key D b.nodeids t ≡ has_id b.heap b.space.nodes t)

  -- Reading a node does not change which one it is, nor the id of any.
  abbrev pub SameIds : ℕ → Heap → Draft D → Type 0
  SameIds n h d = (d.node ≡ n) × ((m : ℕ) → (d.heap.nodes m).id ≡ (h.nodes m).id)

  put_node-id :
      (h : Heap) (n : ℕ) (x : Node) (k : Heap)
      → x.id ≡ (k.nodes n).id
      → ((m : ℕ) → (k.nodes m).id ≡ (h.nodes m).id)
      → (m : ℕ) → ((put_node n x k).nodes m).id ≡ (h.nodes m).id
  put_node-id h n x k same old m = elim (Bool-cases (m == n)) [
    | inl e ↦ rw e (same ∙ rw (sym ((==_iff m n).0 e)) (old m))
    | inr e ↦ rw e (old m)
  ]

  pub SameIds-IsStable : (n : ℕ) (h : Heap) → IsStable D (SameIds n h)
  unfolding new_pointer
  SameIds-IsStable n h = record {
    node = λ x d same k. (k.0, put_node-id h d.node x d.heap same k.1);
    details = λ e d k. k;
    pointer = λ t d k. k;
    typed = λ r t d k. k;
    backward = λ r d k. k;
  }

  -- A node is added behind the others, after the one with its id is taken away.
  without_node-IsIndexed :
      (t : Text) (b : Building D) (n : ℕ)
      → IsIndexed b
      → get_node_by_id_string b.heap b.space.nodes t ≡ some n
      → IsIndexed (state (without_node D t b (some n)))
        × (has_key D (state (without_node D t b (some n))).nodeids t ≡ false)
  without_node-IsIndexed t b n h e =
      let own = id_text b.heap n in
      let same : t ≡ own = (text_eq_iff t own).0 (get_node-id_text b.heap b.space.nodes t n e) in
      let found : get_node_by_id_string b.heap b.space.nodes own ≡ some n = rw (sym same) e in
      (
        (
          λ m at. h.0 m (member-drop_first m n b.space.nodes at),
          HasDistinctIds-drop_first b.heap n b.space.nodes h.1,
          λ u.
              has_key-without_key D b.nodeids own u
              ∙ ap (λ c. c && not (text_eq own u)) (h.2 u)
              ∙ sym (has_id-drop_first b.heap b.space.nodes own u n h.1 found),
        ),
        has_key-without_key D b.nodeids own t ∙ ground (arith, text_eq_iff own t, same),
      )

  -- Making room for an id never raises: if it is in the dictionary, a node has it.
  pub replace-IsIndexed :
      (t : Text) (b : Building D)
      → IsIndexed b
      → (c : Building D) × (replace D t b ≡ done c) × IsIndexed c × (has_key D c.nodeids t ≡ false)
  unfolding replace
  replace-IsIndexed t b h = elim (Bool-cases (has_key D b.nodeids t)) [
    | inl there ↦
        let found = get_node-some b.heap b.space.nodes t (sym (h.2 t) ∙ there) in
        let kept = without_node-IsIndexed t b found.0 h found.1 in
        (state (without_node D t b (some found.0)), rw (there, found.1) refl, kept.0, kept.1)
    | inr absent ↦ (b, rw absent refl, h, absent)
  ]

  blank-others :
      (b : Building D) (id : NodeId) (k : Kind D) (m : ℕ)
      → IsIndexed b
      → member m b.space.nodes ≡ true
      → ((new_draft D id k b).heap.nodes m).id ≡ (b.heap.nodes m).id
  blank-others b id k m h at = elim (Bool-cases (m == b.next_node)) [
    | inl e ↦ absurd (omega (arith, h.0 m at, (==_iff m b.next_node).0 e))
    | inr e ↦ rw e refl
  ]

  member-added :
      (m n next : ℕ) (ns : List ℕ)
      → ((x : ℕ) → member x ns ≡ true → x < next)
      → n ≡ next
      → member m (ns ++ (n ∷ [])) ≡ true
      → m < suc next
  member-added m n next [] below e at = omega (arith, e, (==_iff m n).0 (ground arith))
  member-added m n next (x ∷ ns) below e at = elim (Bool-cases (m == x)) [
    | inl here ↦ omega (arith, below m (ground arith))
    | inr later ↦
        member-added m n next ns (λ y there. below y (ground arith)) e (ground (arith, later))
  ]

  abbrev Old : Building D → Draft D → Type 0
  Old b d = (m : ℕ) → member m b.space.nodes ≡ true → (d.heap.nodes m).id ≡ (b.heap.nodes m).id

  pub with_node-IsIndexed :
      (id : NodeId) (k : Kind D) (b : Building D) (r : Run (Draft D))
      → IsIndexed b
      → has_key D b.nodeids (node_id_text id) ≡ false
      → SameIds b.next_node (new_draft D id k b).heap (state r)
      → IsIndexed (state (with_node D b r))
  with_node-IsIndexed id k b (raised x d) h free same =
      let old : Old b d = λ m at. same.1 m ∙ blank-others b id k m h at in
      (
        λ m at. omega (arith, h.0 m at),
        HasDistinctIds-cong b.heap d.heap b.space.nodes old h.1,
        λ t. h.2 t ∙ sym (has_id-cong b.heap d.heap b.space.nodes t old),
      )
  with_node-IsIndexed id k b (done d) h free same =
      let old : Old b d = λ m at. same.1 m ∙ blank-others b id k m h at in
      let own : id_text d.heap d.node ≡ node_id_text id =
        ap node_id_text (same.1 d.node ∙ rw same.0 (made b.next_node)) in
      let absent : has_id d.heap b.space.nodes (id_text d.heap d.node) ≡ false = rw own (
        has_id-cong b.heap d.heap b.space.nodes (node_id_text id) old
        ∙ sym (h.2 (node_id_text id))
        ∙ free) in
      (
        λ m at. member-added m d.node b.next_node b.space.nodes h.0 same.0 at,
        HasDistinctIds-snoc d.heap b.space.nodes d.node
            (HasDistinctIds-cong b.heap d.heap b.space.nodes old h.1) absent,
        λ t.
            has_key-snoc D (without_key D (id_text d.heap d.node) b.nodeids) (id_text d.heap d.node)
              t d.node
            ∙ ap (λ c. c || text_eq (id_text d.heap d.node) t)
                (has_key-without_key D b.nodeids (id_text d.heap d.node) t)
            ∙ together t (h.2 t ∙ sym (has_id-cong b.heap d.heap b.space.nodes t old))
            ∙ sym (has_id-snoc d.heap b.space.nodes d.node t),
      )
    where
      made : (n : ℕ) → ((put_node n (blank_node D id k) b.heap).nodes n).id ≡ id
      made n = rw ((==_iff n n).1 refl) refl

      together :
          (t : Text)
          → has_key D b.nodeids t ≡ has_id d.heap b.space.nodes t
          → ((has_key D b.nodeids t && not (text_eq (id_text d.heap d.node) t))
              || text_eq (id_text d.heap d.node) t)
            ≡ (has_id d.heap b.space.nodes t || text_eq t (id_text d.heap d.node))
      together t e =
          ground
            (arith, e, text_eq_iff t (id_text d.heap d.node), text_eq_iff (id_text d.heap d.node) t)
