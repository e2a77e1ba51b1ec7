-- ===== src/Namespace/Create/Aliases.antt =====
-- `buildAliasList` changes the aliases only.
use control_system_adapter_o.Prelude.{
  ◌≡◌, refl, ◌∙◌, Bool, true, false, Option, none, some, List, [], ◌∷◌, if◌then◌else◌,
}
use control_system_adapter_o.Prelude.Text.{Text, codes, text_eq}
use control_system_adapter_o.Prelude.Result.{Run, done, raised, state, ◌▷◌}
use control_system_adapter_o.Namespace.Space.{Space}
use control_system_adapter_o.Namespace.Create.{
  each, Dom, attribute_of, with_data, first_data, add_alias, alias_named, one_alias,
  build_alias_list,
}

abbrev pub LeavesNodes : Space → Run Space → Type 0
LeavesNodes s r = ((state r).link_later ≡ s.link_later) × ((state r).nodes ≡ s.nodes)

module _ (D : Dom) where
  if-LeavesNodes :
      (b : Bool) (r q : Run Space) (s : Space)
      → LeavesNodes s r
      → LeavesNodes s q
      → LeavesNodes s (if b then r else q)
  if-LeavesNodes true r q s h k = h
  if-LeavesNodes false r q s h k = k

  then-LeavesNodes :
      (r : Run Space) (f : Space → Run Space) (s : Space)
      → LeavesNodes s r
      → ((u : Space) → LeavesNodes u (f u))
      → LeavesNodes s (r ▷ f)
  then-LeavesNodes (done u) f s h k = ((k u).0 ∙ h.0, (k u).1 ∙ h.1)
  then-LeavesNodes (raised x u) f s h k = h

  one_alias-LeavesNodes : (x : D.Xml) (s : Space) → LeavesNodes s (one_alias D x s)
  unfolding one_alias
  one_alias-LeavesNodes x s =
      if-LeavesNodes (D.is_element x) _ _ s
        (named (attribute_of D (D.attributes x) (codes "Alias"))) (refl, refl)
    where
      added :
          (b : Bool) (u : Space)
          → LeavesNodes s (done u)
          → LeavesNodes s (done (if b then s else u))
      added true u h = (refl, refl)
      added false u h = h

      defined :
          (a : Text) (o : Option Text)
          → LeavesNodes s (with_data D o s (λ u. done (add_alias D a u s)))
      defined a none = (refl, refl)
      defined a (some u) = added _ _ (refl, refl)

      named : (o : Option Text) → LeavesNodes s (alias_named D x o s)
      named none = (refl, refl)
      named (some a) = defined a (first_data D x)

  aliases-LeavesNodes : (xs : List D.Xml) (s : Space) → LeavesNodes s (each (one_alias D) xs s)
  aliases-LeavesNodes [] s = (refl, refl)
  aliases-LeavesNodes (x ∷ xs) s =
      then-LeavesNodes (one_alias D x s) (each (one_alias D) xs) s (one_alias-LeavesNodes x s)
        (λ u. aliases-LeavesNodes xs u)

  pub build_alias_list-LeavesNodes :
      (e : D.Xml) (s : Space) → LeavesNodes s (build_alias_list D e s)
  unfolding build_alias_list
  build_alias_list-LeavesNodes e s =
      if-LeavesNodes (text_eq (D.tag_name e) (codes "Aliases")) _ _ s
        (aliases-LeavesNodes (D.child_nodes e) s) (refl, refl)
