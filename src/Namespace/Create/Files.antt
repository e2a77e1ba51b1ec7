-- ===== src/Namespace/Create/Files.antt =====
-- What reading files keeps of a namespace, when the making of a node and the aliases keep it.
use mathlib.Core.Path.{subst}
use control_system_adapter_o.Prelude.{
  ◌≡◌, ◌∙◌, Bool, true, false, Option, none, some, List, [], ◌∷◌, if◌then◌else◌,
}
use control_system_adapter_o.Prelude.Text.{Text, codes, text_eq, lower}
use control_system_adapter_o.Prelude.Result.{
  Result, ok, err, Run, done, raised, state, ◌▷◌, with_value,
}
use control_system_adapter_o.Namespace.NodeId.{NodeId, new_node_id, first_two, from}
use control_system_adapter_o.Namespace.Space.{Space}
use control_system_adapter_o.Namespace.Create.{each, Dom, build_alias_list}
use control_system_adapter_o.Namespace.Create.Aliases.{LeavesNodes, build_alias_list-LeavesNodes}
use control_system_adapter_o.Namespace.Create.Base.{is_among}
use control_system_adapter_o.Namespace.Create.Classes.{KeepsEnd, create_with_id-KeepsEnd}
use control_system_adapter_o.Namespace.Create.Parse.{
  Building, create_with_id, id_attribute, with_aliases, with_id, create_node, known_node_types,
  one_element, first_set, parse_xml,
}

-- The one predicate of what a function gives, and the other of what an exception leaves.
abbrev pub After : {S : Type 0} → (S → Type 0) → (S → Type 0) → Run S → Type 0
After P E (done s) = P s
After P E (raised x s) = E s

module _ (D : Dom) (P E : Building D → Type 0) (weaker : (b : Building D) → P b → E b)
    (keeps_aliases : (b : Building D) (r : Run Space)
      → LeavesNodes b.space r
      → P b
      → After P E (with_aliases D b r))
    (keeps_node : (t : Text) (e : D.Xml) (id : NodeId) (b : Building D)
      → P b
      → After P E (create_with_id D t e id b)) where
  abbrev Holds : Run (Building D) → Type 0
  Holds r = After P E r

  if-Holds : (b : Bool) (r s : Run (Building D)) → Holds r → Holds s → Holds (if b then r else s)
  if-Holds true r s h k = h
  if-Holds false r s h k = k

  then-Holds :
      (r : Run (Building D)) (f : Building D → Run (Building D))
      → Holds r
      → ((b : Building D) → P b → Holds (f b))
      → Holds (r ▷ f)
  then-Holds (done b) f h k = k b h
  then-Holds (raised x b) f h k = h

  with_value-Holds :
      {A : Type 0} (r : Result A) (b : Building D) (f : A → Run (Building D))
      → P b
      → ((a : A) → Holds (f a))
      → Holds (with_value r b f)
  with_value-Holds (ok a) b f h k = k a
  with_value-Holds (err x) b f h k = weaker b h

  with_id-Holds :
      (t : Text) (e : D.Xml) (b : Building D) (o : Option Text) → P b → Holds (with_id D t e b o)
  with_id-Holds t e b none h = h
  with_id-Holds t e b (some u) h =
      with_value-Holds (new_node_id u) b (λ id. create_with_id D t e id b) h
        (λ id. keeps_node t e id b h)

  create_node-Holds : (t : Text) (e : D.Xml) (b : Building D) → P b → Holds (create_node D t e b)
  unfolding create_node
  create_node-Holds t e b h =
      if-Holds (text_eq t (codes "aliases")) _ _
        (keeps_aliases b (build_alias_list D e b.space) (build_alias_list-LeavesNodes D e b.space)
          h)
        (with_id-Holds t e b (id_attribute D (D.attributes e)) h)

  one_element-Holds : (x : D.Xml) (b : Building D) → P b → Holds (one_element D x b)
  unfolding one_element
  one_element-Holds x b h =
      let t = lower (D.tag_name x) in
      if-Holds (D.is_element x) _ _
        (if-Holds (text_eq (first_two t) (codes "ua")) _ _ (create_node-Holds (from 2 t) x b h)
          (if-Holds (is_among D t (known_node_types D)) _ _ (create_node-Holds t x b h) h))
        h

  each-Holds :
      {X : Type 0} (f : X → Building D → Run (Building D))
      → ((x : X) (b : Building D) → P b → Holds (f x b))
      → (xs : List X) (b : Building D) → P b
      → Holds (each f xs b)
  each-Holds f keeps [] b h = h
  each-Holds f keeps (x ∷ xs) b h =
      then-Holds (f x b) (each f xs) (keeps x b h) (λ c k. each-Holds f keeps xs c k)

  first_set-Holds : (sets : List D.Xml) (b : Building D) → P b → Holds (first_set D sets b)
  first_set-Holds [] b h = h
  first_set-Holds (set ∷ more) b h =
      each-Holds (one_element D) one_element-Holds (D.child_nodes set) b h

  parse_xml-Holds : (sets : Result (List D.Xml)) (b : Building D) → P b → Holds (parse_xml D sets b)
  unfolding parse_xml
  parse_xml-Holds sets b h =
      with_value-Holds sets b (λ found. first_set D found b) h (λ found. first_set-Holds found b h)

  parse_files-After :
      (files : List (Result (List D.Xml))) (b : Building D)
      → P b
      → After P E (each (parse_xml D) files b)
  parse_files-After files b h = each-Holds (parse_xml D) parse_xml-Holds files b h

module _ (D : Dom) (P : Building D → Type 0)
    (keeps_aliases : (b : Building D) (r : Run Space)
      → LeavesNodes b.space r
      → P b
      → P (state (with_aliases D b r)))
    (keeps_node : (t : Text) (e : D.Xml) (id : NodeId) (b : Building D)
      → P b
      → P (state (create_with_id D t e id b))) where
  -- The property, in a namespace whose list of nodes does not end with `None`
  abbrev pub Whole : Building D → Type 0
  Whole b = (b.ends_with_none ≡ false) × P b

  abbrev Any : Building D → Type 0
  Any b = Unit {0}

  aliases-After :
      (b : Building D) (r : Run Space)
      → LeavesNodes b.space r
      → Whole b
      → After Whole Any (with_aliases D b r)
  aliases-After b (done s) e h = (h.0, keeps_aliases b (done s) e h.1)
  aliases-After b (raised x s) e h = tt

  joined :
      (b : Building D) (r : Run (Building D))
      → b.ends_with_none ≡ false
      → KeepsEnd D b r
      → P (state r)
      → After Whole Any r
  joined b (done c) e k h = (k ∙ e, h)
  joined b (raised x c) e k h = tt

  -- Reading files that raises no exception keeps the property, and adds no `None`.
  pub parse_files-Whole :
      (files : List (Result (List D.Xml))) (b c : Building D)
      → each (parse_xml D) files b ≡ done c
      → Whole b
      → Whole c
  parse_files-Whole files b c e h = subst (After Whole Any) e (
      parse_files-After D Whole Any (λ x k. tt) aliases-After
        (λ t x id d k.
          joined d (create_with_id D t x id d) k.0 (create_with_id-KeepsEnd D t x id d)
            (keeps_node t x id d k.1))
        files b h)
