-- ===== src/Namespace/Create/Stable.antt =====
-- What the reading of a node keeps, when each of the things that it does keeps it.
pub mod Class
use control_system_adapter_o.Prelude.{
  ℕ, zero, suc, ◌≡◌, refl, Bool, true, false, ◌&&◌, ◌||◌, not, Option, none, some, List, [], ◌∷◌,
  if◌then◌else◌, ◌++◌,
}
use control_system_adapter_o.Prelude.Text.{Text, codes, text_eq, lower, is_in}
use control_system_adapter_o.Prelude.Number.{ℤ, int}
use control_system_adapter_o.Prelude.Result.{
  Run, done, raised, state, ◌▷◌, read_int, attribute_error, name_error, value_error,
}
use control_system_adapter_o.Namespace.Heap.{
  unlinked, Node, put_node, put_reference, set_reference_type, add_reference, member,
}
use control_system_adapter_o.Namespace.Create.{
  each, Dom, VariableInfo, VariableTypeInfo, ReferenceTypeInfo, Kind, variable_node, object_node,
  method_node, object_type_node, variable_type_node, data_type_node, reference_type_node, Details,
  Draft, first_data, with_data, new_pointer, add_pointer, is_false, reference_attribute,
  one_reference, initiate_dummy_xml_references,
}
use control_system_adapter_o.Namespace.Create.Base.{
  with_details, with_kind, with_browse_name, with_inverse_name, event_notifier, base_attribute,
  is_among, base_children, is_empty, looked_at, children_left, base_child, base_text,
  base_references, base_node,
}

module _ (D : Dom) where
  -- What reading a node does to it and to its references
  pub record IsStable (P : Draft D → Type 0) : Type 0 where
    pub node :
        (x : Node) (d : Draft D)
        → x.id ≡ (d.heap.nodes d.node).id
        → P d
        → P (record d { heap = put_node d.node x d.heap })
    pub details : (e : Details D) (d : Draft D) → P d → P (record d { details = e })
    pub pointer : (t : Text) (d : Draft D) → P d → P (new_pointer D t d)
    pub typed :
        (r : ℕ) (t : Text) (d : Draft D)
        → P d
        → P (record d {
          heap = put_reference r (set_reference_type (unlinked t) (d.heap.references r)) d.heap;
        })
    pub backward :
        (r : ℕ) (d : Draft D)
        → P d
        → P (record d {
          heap = put_reference r (record (d.heap.references r) { is_forward = false }) d.heap;
        })

module _ (D : Dom) (P : Draft D → Type 0) (stable : IsStable D P) where
  abbrev pub Kept : Run (Draft D) → Type 0
  Kept r = P (state r)

  pub if-Kept : (b : Bool) (r s : Run (Draft D)) → Kept r → Kept s → Kept (if b then r else s)
  if-Kept true r s h k = h
  if-Kept false r s h k = k

  pub int-Kept :
      (t : Text) (d : Draft D) (put : ℤ → Draft D)
      → P d
      → ((z : ℤ) → P (put z))
      → Kept (read_int (some t) d put)
  unfolding read_int
  int-Kept t d put h k = next (int t)
    where
      next :
          (o : Option ℤ)
          → P (state (elim o [ none ↦ raised value_error d | some z ↦ done (put z) ]))
      next none = h
      next (some z) = k z

  details-Kept : (f : Details D → Details D) (d : Draft D) → P d → P (with_details D f d)
  details-Kept f d h = stable.details (f d.details) d h

  event-Kept : (k : Kind D) (t : Text) (d : Draft D) → P d → Kept (event_notifier D k t d)
  event-Kept object_node t d h = int-Kept t d (λ z. d) h (λ z. h)
  event-Kept k t d h = h

  pub then-Kept :
      (r : Run (Draft D)) (f : Draft D → Run (Draft D))
      → Kept r
      → ((d : Draft D) → P d → Kept (f d))
      → Kept (r ▷ f)
  then-Kept (done d) f h k = k d h
  then-Kept (raised x d) f h k = h

  pub each-Kept :
      {X : Type 0} (f : X → Draft D → Run (Draft D))
      → ((x : X) (d : Draft D) → P d → Kept (f x d))
      → (xs : List X) (d : Draft D) → P d
      → Kept (each f xs d)
  each-Kept f keeps [] d h = h
  each-Kept f keeps (x ∷ xs) d h =
      then-Kept (f x d) (each f xs) (keeps x d h) (λ e k. each-Kept f keeps xs e k)

  pub data-Kept :
      (o : Option Text) (d : Draft D) (f : Text → Run (Draft D))
      → P d
      → ((t : Text) → Kept (f t))
      → Kept (with_data D o d f)
  data-Kept none d f h k = h
  data-Kept (some t) d f h k = k t

  reference_attribute-Kept :
      (r : ℕ) (a : Text × Text) (d : Draft D) → P d → Kept (reference_attribute D r a d)
  unfolding reference_attribute
  reference_attribute-Kept r (at, av) d h =
      if-Kept (text_eq at (codes "ReferenceType")) _ _ (stable.typed r av d h)
        (if-Kept (text_eq at (codes "IsForward") && is_false D av) _ _ (stable.backward r d h) h)

  add_pointer-Kept : (t : Text) (d : Draft D) → P d → P (add_pointer D t d)
  unfolding add_pointer add_reference
  add_pointer-Kept t d h =
      next (member d.heap.next ((new_pointer D t d).heap.nodes d.node).references)
    where
      made : Draft D
      made = new_pointer D t d

      next :
          (b : Bool)
          → P (record made {
            heap =
                if b
                then made.heap
                else put_node d.node
                    (record (made.heap.nodes d.node) {
                      references = (made.heap.nodes d.node).references ++ (d.heap.next ∷ []);
                    })
                    made.heap;
          })
      next true = stable.pointer t d h
      next false = stable.node _ made refl (stable.pointer t d h)

  one_reference-Kept : (x : D.Xml) (d : Draft D) → P d → Kept (one_reference D x d)
  unfolding one_reference
  one_reference-Kept x d h =
      if-Kept (D.is_element x) _ _
        (data-Kept (first_data D x) d
          (λ t. each (reference_attribute D d.heap.next) (D.attributes x) (add_pointer D t d)) h
          (λ t.
            each-Kept (reference_attribute D d.heap.next)
              (λ a e k. reference_attribute-Kept d.heap.next a e k) (D.attributes x)
              (add_pointer D t d) (add_pointer-Kept t d h)))
        h

  initiate-Kept : (x : D.Xml) (d : Draft D) → P d → Kept (initiate_dummy_xml_references D x d)
  unfolding initiate_dummy_xml_references
  initiate-Kept x d h =
      if-Kept (text_eq (D.tag_name x) (codes "References")) _ _
        (each-Kept (one_reference D) (λ y e k. one_reference-Kept y e k) (D.child_nodes x) d h) h

  pub base_attribute-Kept : (a : Text × Text) (d : Draft D) → P d → Kept (base_attribute D a d)
  unfolding base_attribute
  base_attribute-Kept (at, av) d h =
      if-Kept (text_eq at (codes "BrowseName")) _ _ (stable.node _ d refl h) (
        if-Kept (text_eq at (codes "DisplayName")) _ _ (stable.details _ d h) (
          if-Kept (text_eq at (codes "Description")) _ _ (stable.details _ d h) (
            if-Kept (text_eq at (codes "WriteMask")) _ _
              (int-Kept av d _ h (λ z. stable.details _ d h))
              (if-Kept (text_eq at (codes "UserWriteMask")) _ _
                (int-Kept av d _ h (λ z. stable.details _ d h))
                (if-Kept (text_eq at (codes "EventNotifier")) _ _ (event-Kept d.details.kind av d h)
                  h)))))

  base_child-Kept : (tag t : Text) (d : Draft D) → P d → Kept (base_child D tag t d)
  base_child-Kept tag t d h =
      if-Kept (text_eq tag (codes "BrowseName")) _ _ (stable.node _ d refl h) (
        if-Kept (text_eq tag (codes "DisplayName")) _ _ (stable.details _ d h) (
          if-Kept (text_eq tag (codes "Description")) _ _ (stable.details _ d h) (
            if-Kept (text_eq tag (codes "WriteMask")) _ _
              (int-Kept t d _ h (λ z. stable.details _ d h))
              (int-Kept t d _ h (λ z. stable.details _ d h)))))

  base_text-Kept : (x : D.Xml) (d : Draft D) → P d → Kept (base_text D x d)
  unfolding base_text
  base_text-Kept x d h =
      if-Kept (not (is_empty D (D.child_nodes x)) && is_among D (D.tag_name x) (base_children D)) _
        _
        (data-Kept (first_data D x) d (λ t. base_child D (D.tag_name x) t d) h
          (λ t. base_child-Kept (D.tag_name x) t d h))
        h

  base_references-Kept : (x : D.Xml) (d : Draft D) → P d → Kept (base_references D x d)
  unfolding base_references
  base_references-Kept x d h =
      if-Kept (text_eq (D.tag_name x) (codes "References")) _ _ (initiate-Kept x d h) h

  pub base_node-Kept : (x : D.Xml) (d : Draft D) → P d → Kept (base_node D x d)
  unfolding base_node
  base_node-Kept x d h =
      if-Kept (D.is_element x) _ _
        (then-Kept (base_text D x d) (base_references D x) (base_text-Kept x d h)
          (λ e k. base_references-Kept x e k))
        h
