-- ===== src/Namespace/Create/Waiting.antt =====
-- The references that are made while a file is read wait for linking, and can be linked.
use control_system_adapter_o.Prelude.{
  ℕ, ◌<◌, ◌==◌, ◌≡◌, refl, Bool, true, false, Option, none, some, List, [], ◌∷◌, ◌++◌,
  if◌then◌else◌, arith, ==_iff, Bool-cases, inl, inr, ◌⊎◌,
}
use control_system_adapter_o.Prelude.Text.{Text}
use control_system_adapter_o.Prelude.Result.{
  Result, ok, err, Run, done, raised, state, ◌▷◌, with_value,
}
use control_system_adapter_o.Namespace.NodeId.{NodeId, node_id_text}
use control_system_adapter_o.Namespace.Heap.{Reference, Heap, member, put_reference}
use control_system_adapter_o.Namespace.Reorder.Fill.{IsDistinct}
use control_system_adapter_o.Namespace.Space.{get_node_by_id_string}
use control_system_adapter_o.Namespace.Space.Linking.{IsUntyped}
use control_system_adapter_o.Namespace.Create.{Dom, Kind, Draft, new_pointer}
use control_system_adapter_o.Namespace.Create.Kinds.{parse_node}
use control_system_adapter_o.Namespace.Create.Stable.{IsStable}
use control_system_adapter_o.Namespace.Create.Stable.Class.{parse_node-Kept}
use control_system_adapter_o.Namespace.Create.Parse.{
  Building, kind_of, new_draft, with_node, without_node, replace, with_class, create_with_id,
  has_key,
}

-- References none of which has a node as its type, and a list of distinct ones among them
abbrev pub AreWaiting : Heap → List ℕ → Type 0
AreWaiting h rs =
    ((r : ℕ) → IsUntyped (h.references r).reference_type)
    × IsDistinct rs
    × ((r : ℕ) → member r rs ≡ true → r < h.next)

put-IsUntyped :
    (h : Heap) (n : ℕ) (o : Reference)
    → ((r : ℕ) → IsUntyped (h.references r).reference_type)
    → IsUntyped o.reference_type
    → (r : ℕ) → IsUntyped ((put_reference n o h).references r).reference_type
put-IsUntyped h n o untyped new r = elim (Bool-cases (r == n)) [
  | inl e ↦ rw e new
  | inr e ↦ rw e (untyped r)
]

member-snoc :
    (x n : ℕ) (rs : List ℕ) → member x (rs ++ (n ∷ [])) ≡ true → (member x rs ≡ true) ⊎ (x ≡ n)
member-snoc x n [] h = inr ((==_iff x n).0 (ground arith))
member-snoc x n (r ∷ rs) h = elim (Bool-cases (x == r)) [
  | inl e ↦ inl (rw e refl)
  | inr e ↦ elim (member-snoc x n rs (ground (arith, e))) [
    | inl old ↦ inl (rw (e, old) refl)
    | inr new ↦ inr new
  ]
]

IsDistinct-snoc :
    (n : ℕ) (rs : List ℕ) → IsDistinct rs → member n rs ≡ false → IsDistinct (rs ++ (n ∷ []))
IsDistinct-snoc n [] h new = (refl, tt)
IsDistinct-snoc n (r ∷ rs) h new =
    (absent rs h.0 (ground arith), IsDistinct-snoc n rs h.1 (ground arith))
  where
    absent :
        (xs : List ℕ) → member r xs ≡ false → (n == r) ≡ false → member r (xs ++ (n ∷ [])) ≡ false
    absent [] a e = ground arith
    absent (x ∷ xs) a e = ground (arith, absent xs)

fresh-absent : (n : ℕ) (rs : List ℕ) → ((r : ℕ) → member r rs ≡ true → r < n) → member n rs ≡ false
fresh-absent n rs below = elim (Bool-cases (member n rs)) [
  | inl there ↦ absurd (omega (arith, below n there))
  | inr absent ↦ absent
]

module _ (D : Dom) where
  abbrev IsWaiting : Draft D → Type 0
  IsWaiting d = AreWaiting d.heap d.link_later

  new_pointer-IsWaiting : (t : Text) (d : Draft D) → IsWaiting d → IsWaiting (new_pointer D t d)
  unfolding new_pointer
  new_pointer-IsWaiting t d h = (
    put-IsUntyped d.heap d.heap.next _ h.0 tt,
    IsDistinct-snoc d.heap.next d.link_later h.1 (fresh-absent d.heap.next d.link_later h.2),
    λ r at. elim (member-snoc r d.heap.next d.link_later at) [
      | inl old ↦ omega (arith, h.2 r old)
      | inr new ↦ omega (arith, new)
    ],
  )

  IsWaiting-IsStable : IsStable D IsWaiting
  IsWaiting-IsStable = record {
    node = λ x d same h. h;
    details = λ e d h. h;
    pointer = new_pointer-IsWaiting;
    typed = λ r t d h. (put-IsUntyped d.heap r _ h.0 tt, h.1, h.2);
    backward = λ r d h. (put-IsUntyped d.heap r _ h.0 (h.0 r), h.1, h.2);
  }

  abbrev pub HasWaiting : Run (Building D) → Type 0
  HasWaiting r = AreWaiting (state r).heap (state r).space.link_later

  pub if-HasWaiting :
      (b : Bool) (r s : Run (Building D))
      → HasWaiting r
      → HasWaiting s
      → HasWaiting (if b then r else s)
  if-HasWaiting true r s h k = h
  if-HasWaiting false r s h k = k

  pub then-HasWaiting :
      (r : Run (Building D)) (f : Building D → Run (Building D))
      → HasWaiting r
      → ((b : Building D) → HasWaiting (done b) → HasWaiting (f b))
      → HasWaiting (r ▷ f)
  then-HasWaiting (done b) f h k = k b h
  then-HasWaiting (raised x b) f h k = h

  pub with_value-HasWaiting :
      {A : Type 0} (r : Result A) (b : Building D) (f : A → Run (Building D))
      → HasWaiting (done b)
      → ((a : A) → HasWaiting (f a))
      → HasWaiting (with_value r b f)
  with_value-HasWaiting (ok a) b f h k = k a
  with_value-HasWaiting (err x) b f h k = h

  without_node-HasWaiting :
      (t : Text) (b : Building D) (o : Option ℕ)
      → HasWaiting (done b)
      → HasWaiting (without_node D t b o)
  without_node-HasWaiting t b none h = h
  without_node-HasWaiting t b (some n) h = h

  replace-HasWaiting :
      (t : Text) (b : Building D) → HasWaiting (done b) → HasWaiting (replace D t b)
  unfolding replace
  replace-HasWaiting t b h =
      if-HasWaiting (has_key D b.nodeids t) _ _
        (without_node-HasWaiting t b (get_node_by_id_string b.heap b.space.nodes t) h) h

  with_node-HasWaiting :
      (b : Building D) (r : Run (Draft D)) → IsWaiting (state r) → HasWaiting (with_node D b r)
  with_node-HasWaiting b (done d) h = h
  with_node-HasWaiting b (raised x d) h = h

  with_class-HasWaiting :
      (o : Option (Kind D)) (b : Building D) (f : Kind D → Run (Building D))
      → HasWaiting (done b)
      → ((k : Kind D) → HasWaiting (f k))
      → HasWaiting (with_class D o b f)
  with_class-HasWaiting none b f h k = h
  with_class-HasWaiting (some kind) b f h k = k kind

  pub create_with_id-HasWaiting :
      (t : Text) (e : D.Xml) (id : NodeId) (b : Building D)
      → HasWaiting (done b)
      → HasWaiting (create_with_id D t e id b)
  unfolding create_with_id
  create_with_id-HasWaiting t e id b h =
      then-HasWaiting (replace D (node_id_text id) b)
        (λ c.
          with_value (kind_of D t) c
            (λ o. with_class D o c (λ k. with_node D c (parse_node D e (new_draft D id k c)))))
        (replace-HasWaiting (node_id_text id) b h)
        (λ c l.
          with_value-HasWaiting (kind_of D t) c
            (λ o. with_class D o c (λ k. with_node D c (parse_node D e (new_draft D id k c)))) l
            (λ o.
              with_class-HasWaiting o c (λ k. with_node D c (parse_node D e (new_draft D id k c))) l
                (λ k.
                  with_node-HasWaiting c (parse_node D e (new_draft D id k c))
                    (parse_node-Kept D IsWaiting IsWaiting-IsStable e (new_draft D id k c) l))))
