-- ===== src/Namespace/Create/Classes.antt =====
-- Whether the list of nodes ends with `None` behind the making of a node that raises no exception.
use control_system_adapter_o.Prelude.{
  ◌≡◌, refl, ◌∙◌, Bool, true, false, Option, none, some, if◌then◌else◌, ℕ,
}
use control_system_adapter_o.Prelude.Text.{Text}
use control_system_adapter_o.Prelude.Result.{Result, ok, err, Run, done, raised, ◌▷◌, with_value}
use control_system_adapter_o.Namespace.NodeId.{NodeId, node_id_text}
use control_system_adapter_o.Namespace.Space.{get_node_by_id_string}
use control_system_adapter_o.Namespace.Create.{Dom, Kind, Draft}
use control_system_adapter_o.Namespace.Create.Kinds.{parse_node}
use control_system_adapter_o.Namespace.Create.Parse.{
  Building, kind_of, new_draft, with_node, without_node, replace, with_class, create_with_id,
  has_key,
}

module _ (D : Dom) where
  -- Without an exception the end of the list is as in the namespace before.
  abbrev pub KeepsEnd : Building D → Run (Building D) → Type 0
  KeepsEnd b (done c) = c.ends_with_none ≡ b.ends_with_none
  KeepsEnd b (raised x c) = Unit {0}

  then-KeepsEnd :
      (b : Building D) (r : Run (Building D)) (f : Building D → Run (Building D))
      → KeepsEnd b r
      → ((c : Building D) → KeepsEnd c (f c))
      → KeepsEnd b (r ▷ f)
  then-KeepsEnd b (raised x c) f h k = tt
  then-KeepsEnd b (done c) f h k = joined (f c) (k c)
    where
      joined : (q : Run (Building D)) → KeepsEnd c q → KeepsEnd b q
      joined (done d) e = e ∙ h
      joined (raised x d) e = tt

  with_node-KeepsEnd : (b : Building D) (r : Run (Draft D)) → KeepsEnd b (with_node D b r)
  with_node-KeepsEnd b (done d) = refl
  with_node-KeepsEnd b (raised x d) = tt

  classed-KeepsEnd :
      (b : Building D) (r : Result (Option (Kind D))) (read : Kind D → Run (Draft D))
      → KeepsEnd b (with_value r b (λ o. with_class D o b (λ k. with_node D b (read k))))
  classed-KeepsEnd b (err x) read = tt
  classed-KeepsEnd b (ok none) read = tt
  classed-KeepsEnd b (ok (some k)) read = with_node-KeepsEnd b (read k)

  replaced-KeepsEnd :
      (b : Building D) (t : Text) (known : Bool) (o : Option ℕ)
      → KeepsEnd b (if known then without_node D t b o else done b)
  replaced-KeepsEnd b t false o = refl
  replaced-KeepsEnd b t true none = tt
  replaced-KeepsEnd b t true (some n) = refl

  pub create_with_id-KeepsEnd :
      (t : Text) (e : D.Xml) (id : NodeId) (b : Building D) → KeepsEnd b (create_with_id D t e id b)
  unfolding create_with_id replace
  create_with_id-KeepsEnd t e id b =
      then-KeepsEnd b (replace D (node_id_text id) b)
        (λ c.
          with_value (kind_of D t) c
            (λ o. with_class D o c (λ k. with_node D c (parse_node D e (new_draft D id k c)))))
        (replaced-KeepsEnd b (node_id_text id) (has_key D b.nodeids (node_id_text id))
          (get_node_by_id_string b.heap b.space.nodes (node_id_text id)))
        (λ c. classed-KeepsEnd c (kind_of D t) (λ k. parse_node D e (new_draft D id k c)))
