-- ===== src/Namespace/Walk.antt =====
-- `printDot` of a node, and `printDotGraphWalk`: what is written to the file. Logging is left out.
use control_system_adapter_o.Prelude.{
  ℕ, zero, suc, ◌==◌, ◌||◌, Bool, true, false, Option, none, some, List, [], ◌∷◌, ◌++◌,
  if◌then◌else◌,
}
use control_system_adapter_o.Prelude.Text.{Text, codes, text_eq}
use control_system_adapter_o.Prelude.Result.{Result, ok, err, attribute_error, ◌>>=◌}
use control_system_adapter_o.Namespace.NodeId.{node_id_text}
use control_system_adapter_o.Namespace.Heap.{
  Target, nothing, unlinked, node, Reference, Heap, references_of, member,
}
use control_system_adapter_o.Namespace.Reorder.{get_node_by_browse_name}

-- `t.replace(";", "").replace("=", "")`
abbrev pub cleaned_id : Text → Text
cleaned_id [] = []
cleaned_id (c ∷ t) = if c == b';' || c == b'=' then cleaned_id t else c ∷ cleaned_id t

unfoldable pub dot_name : Heap → ℕ → Text
unfolding node_id_text
dot_name h n = codes "node_" ++ cleaned_id (node_id_text (h.nodes n).id)

-- The label of a reference: the browse name of its type, or the inverse name
abbrev pub dot_label : Heap → Bool → Target → Result Text
dot_label h forward nothing = err attribute_error
dot_label h forward (unlinked t) = err attribute_error
dot_label h true (node m) = ok (h.nodes m).browse_name
dot_label h false (node m) = elim (h.nodes m).inverse_name [
  | none ↦ err attribute_error
  | some t ↦ ok t
]

abbrev pub dot_edge : Heap → ℕ → Reference → Target → Result Text
dot_edge h n r nothing = ok []
dot_edge h n r (unlinked t) = ok []
dot_edge h n r (node m) = dot_label h r.is_forward r.reference_type >>= λ label. ok (
    codes "\n"
    ++ dot_name h n
    ++ codes " -> "
    ++ dot_name h m
    ++ codes " [label=\""
    ++ label
    ++ codes "\"]\n")

unfoldable pub dot_edges : Heap → ℕ → List Reference → Result Text
unfolding dot_name
dot_edges h n [] = ok []
dot_edges h n (r ∷ rs) =
    dot_edge h n r r.target >>= λ edge. dot_edges h n rs >>= λ edges. ok (edge ++ edges)

-- `n.printDot()`
unfoldable pub print_dot : Heap → ℕ → Result Text
unfolding dot_name dot_edges node_id_text references_of
print_dot h n = dot_edges h n (references_of h n) >>= λ edges. ok (
    dot_name h n
    ++ codes " [label = \"{"
    ++ node_id_text (h.nodes n).id
    ++ codes "|"
    ++ (h.nodes n).browse_name
    ++ codes "}\", shape=\"record\"]"
    ++ edges)

-- The file, the nodes that were looked at, and the references of the next step
pub record WalkState : Type 0 where
  pub file : Text
  pub processed : List ℕ
  pub next : List Reference

abbrev pub is_excluded : Text → List Text → Bool
is_excluded t [] = false
is_excluded t (e ∷ es) = text_eq t e || is_excluded t es

module _ (h : Heap) (follow_inverse : Bool) (exclude : List Text) where
  abbrev pub visit_node : Reference → ℕ → WalkState → Result WalkState
  visit_node r m w = print_dot h m >>= λ dot. ok (record {
    file = w.file ++ dot;
    processed = w.processed ++ (m ∷ []);
    next = if r.is_forward || follow_inverse then w.next ++ references_of h m else w.next;
  })

  abbrev pub visit_target : Reference → Target → WalkState → Result WalkState
  visit_target r nothing w = ok w
  visit_target r (unlinked t) w = ok w
  visit_target r (node m) w =
      if is_excluded (node_id_text (h.nodes m).id) exclude || member m w.processed
      then ok w
      else visit_node r m w

  unfoldable pub visit_all : List Reference → WalkState → Result WalkState
  unfolding print_dot node_id_text references_of text_eq
  visit_all [] w = ok w
  visit_all (r ∷ rs) w = visit_target r r.target w >>= visit_all rs

  -- `while iter > 0`; a negative depth is as 0.
  unfoldable pub walk : ℕ → WalkState → Result Text
  unfolding visit_all
  walk zero w = ok (w.file ++ codes "}\n")
  walk (suc depth) w = visit_all w.next (record w { next = [] }) >>= walk depth

  abbrev pub forward_only : List Reference → List Reference
  forward_only [] = []
  forward_only (r ∷ rs) = if r.is_forward then r ∷ forward_only rs else forward_only rs

  -- `printDotGraphWalk`: `none` is a file that is left empty, when there is no root.
  abbrev pub walk_from : ℕ → Option ℕ → Result (Option Text)
  walk_from depth none = ok none
  walk_from depth (some n) = print_dot h n >>= λ dot.
      walk depth (record {
        file = codes "digraph ns {\n" ++ dot;
        processed = [];
        next = if follow_inverse then references_of h n else forward_only (references_of h n);
      })
      >>= λ text. ok (some text)

  abbrev pub root_of : List ℕ → Option ℕ → Option ℕ
  root_of ns none = get_node_by_browse_name h ns (codes "Root")
  root_of ns (some n) = if member n ns then some n else get_node_by_browse_name h ns (codes "Root")

  unfoldable pub print_dot_graph_walk : List ℕ → ℕ → Option ℕ → Result (Option Text)
  unfolding get_node_by_browse_name print_dot walk references_of
  print_dot_graph_walk ns depth root = walk_from depth (root_of ns root)
