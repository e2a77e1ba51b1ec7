-- ===== src/Namespace/Create/Base.antt =====
-- The attributes and children that `parseXML` reads of every node.
use control_system_adapter_o.Prelude.{
  Bool, true, false, ◌&&◌, ◌||◌, not, some, List, [], ◌∷◌, if◌then◌else◌,
}
use control_system_adapter_o.Prelude.Text.{Text, codes, text_eq}
use control_system_adapter_o.Prelude.Number.{int}
use control_system_adapter_o.Prelude.Result.{Run, done, raised, ◌▷◌, read_int, attribute_error}
use control_system_adapter_o.Namespace.Heap.{put_node}
use control_system_adapter_o.Namespace.Create.{
  Dom, Kind, object_node, Details, Draft, first_data, with_data, initiate_dummy_xml_references,
}

module _ (D : Dom) where
  abbrev pub with_details : (Details D → Details D) → Draft D → Draft D
  with_details f d = record d { details = f d.details }

  abbrev pub with_kind : Kind D → Draft D → Draft D
  with_kind k = with_details (λ x. record x { kind = k })

  abbrev pub with_browse_name : Text → Draft D → Draft D
  with_browse_name t d = record d {
    heap = put_node d.node (record (d.heap.nodes d.node) { browse_name = t }) d.heap;
  }

  abbrev pub with_inverse_name : Text → Draft D → Draft D
  with_inverse_name t d = record d {
    heap = put_node d.node (record (d.heap.nodes d.node) { inverse_name = some t }) d.heap;
  }

  -- `self.eventNotifier(int(av))`: only objects have the method here, and it compares instead of
  -- assigning.
  abbrev pub event_notifier : Kind D → Text → Draft D → Run (Draft D)
  event_notifier object_node t d = read_int (some t) d (λ z. d)
  event_notifier k t d = raised attribute_error d

  -- The attributes of every node
  unfoldable pub base_attribute : Text × Text → Draft D → Run (Draft D)
  unfolding text_eq int read_int
  base_attribute (at, av) d =
      if text_eq at (codes "BrowseName")
      then done (with_browse_name av d)
      else if text_eq at (codes "DisplayName")
      then done (with_details (λ x. record x { display_name = av }) d)
      else if text_eq at (codes "Description")
      then done (with_details (λ x. record x { description = av }) d)
      else if text_eq at (codes "WriteMask")
      then read_int (some av) d (λ z. with_details (λ x. record x { write_mask = z }) d)
      else if text_eq at (codes "UserWriteMask")
      then read_int (some av) d (λ z. with_details (λ x. record x { user_write_mask = z }) d)
      else if text_eq at (codes "EventNotifier")
      then event_notifier d.details.kind av d
      else done d

  abbrev pub is_among : Text → List Text → Bool
  is_among t [] = false
  is_among t (x ∷ xs) = text_eq t x || is_among t xs

  abbrev pub base_attributes : List Text
  base_attributes =
      codes "NodeId"
      ∷ codes "BrowseName"
      ∷ codes "DisplayName"
      ∷ codes "Description"
      ∷ codes "WriteMask"
      ∷ codes "UserWriteMask"
      ∷ codes "EventNotifier"
      ∷ codes "ParentNodeId"
      ∷ []

  -- What `removeAttribute` leaves
  unfoldable pub other_attributes : List (Text × Text) → List (Text × Text)
  unfolding text_eq
  other_attributes [] = []
  other_attributes ((at, av) ∷ rest) =
      let later = other_attributes rest in
      if is_among at base_attributes then later else (at, av) ∷ later

  abbrev pub base_children : List Text
  base_children =
      codes "BrowseName"
      ∷ codes "DisplayName"
      ∷ codes "Description"
      ∷ codes "WriteMask"
      ∷ codes "UserWriteMask"
      ∷ []

  abbrev pub is_empty : List D.Xml → Bool
  is_empty [] = true
  is_empty (_ ∷ _) = false

  -- A child that `removeChild` takes away
  unfoldable pub is_taken : D.Xml → Bool
  unfolding text_eq
  is_taken x =
      D.is_element x
      && ((not (is_empty (D.child_nodes x)) && is_among (D.tag_name x) base_children)
          || text_eq (D.tag_name x) (codes "References"))

  -- The loop runs over the list that it takes children away from, so it passes over the child behind
  -- each that it takes away: the children that it looks at, and those that are left.
  unfoldable pub looked_at : Bool → List D.Xml → List D.Xml
  unfolding is_taken
  looked_at passed [] = []
  looked_at true (x ∷ xs) = looked_at false xs
  looked_at false (x ∷ xs) = x ∷ looked_at (is_taken x) xs

  unfoldable pub children_left : Bool → List D.Xml → List D.Xml
  unfolding is_taken
  children_left passed [] = []
  children_left true (x ∷ xs) = x ∷ children_left false xs
  children_left false (x ∷ xs) =
      let left = children_left (is_taken x) xs in if is_taken x then left else x ∷ left

  -- One of the first children, with the text of its first child
  abbrev pub base_child : Text → Text → Draft D → Run (Draft D)
  base_child tag t d =
      if text_eq tag (codes "BrowseName")
      then done (with_browse_name t d)
      else if text_eq tag (codes "DisplayName")
      then done (with_details (λ x. record x { display_name = t }) d)
      else if text_eq tag (codes "Description")
      then done (with_details (λ x. record x { description = t }) d)
      else if text_eq tag (codes "WriteMask")
      then read_int (some t) d (λ z. with_details (λ x. record x { write_mask = z }) d)
      else read_int (some t) d (λ z. with_details (λ x. record x { user_write_mask = z }) d)

  unfoldable pub base_text : D.Xml → Draft D → Run (Draft D)
  unfolding text_eq int read_int first_data
  base_text x d =
      if not (is_empty (D.child_nodes x)) && is_among (D.tag_name x) base_children
      then with_data D (first_data D x) d (λ t. base_child (D.tag_name x) t d)
      else done d

  unfoldable pub base_references : D.Xml → Draft D → Run (Draft D)
  unfolding text_eq initiate_dummy_xml_references
  base_references x d =
      if text_eq (D.tag_name x) (codes "References")
      then initiate_dummy_xml_references D x d
      else done d

  unfoldable pub base_node : D.Xml → Draft D → Run (Draft D)
  unfolding base_text base_references
  base_node x d = if D.is_element x then base_text x d ▷ base_references x else done d
