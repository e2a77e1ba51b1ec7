-- ===== src/Namespace/Create/Indexed.antt =====
-- The ids of nodes in a list, and the keys of the dictionary `nodeids`.
pub mod Unique
pub mod Files
use control_system_adapter_o.Prelude.{
  ℕ, zero, suc, ◌<◌, ◌==◌, ◌≡◌, refl, sym, ap, ◌∙◌, Bool, true, false, not, ◌||◌, ◌&&◌, Option,
  none, some, List, [], ◌∷◌, ◌++◌, if◌then◌else◌, arith, ==_iff, Bool-cases, inl, inr,
}
use control_system_adapter_o.Prelude.Text.{Text, text_eq, text_eq_iff, text_eq_refl}
use control_system_adapter_o.Namespace.NodeId.{node_id_text}
use control_system_adapter_o.Namespace.Heap.{Heap, member, drop_first}
use control_system_adapter_o.Namespace.Space.{get_node_by_id_string}
use control_system_adapter_o.Namespace.Create.{Dom}
use control_system_adapter_o.Namespace.Create.Parse.{has_key, without_key}

abbrev pub id_text : Heap → ℕ → Text
id_text h n = node_id_text (h.nodes n).id

-- A node of the list has the id.
abbrev pub has_id : Heap → List ℕ → Text → Bool
has_id h [] t = false
has_id h (n ∷ ns) t = text_eq t (id_text h n) || has_id h ns t

-- No two nodes of the list have the same id.
abbrev pub HasDistinctIds : Heap → List ℕ → Type 0
HasDistinctIds h [] = Unit {0}
HasDistinctIds h (n ∷ ns) = (has_id h ns (id_text h n) ≡ false) × HasDistinctIds h ns

text_eq_sym : (s t : Text) → text_eq s t ≡ text_eq t s
text_eq_sym s t = ground (arith, text_eq_iff s t, text_eq_iff t s)

pub has_id-snoc :
    (h : Heap) (ns : List ℕ) (n : ℕ) (t : Text)
    → has_id h (ns ++ (n ∷ [])) t ≡ (has_id h ns t || text_eq t (id_text h n))
has_id-snoc h [] n t = ground arith
has_id-snoc h (m ∷ ns) n t = ground (arith, has_id-snoc h ns n t)

pub has_id-cong :
    (h k : Heap) (ns : List ℕ) (t : Text)
    → ((m : ℕ) → member m ns ≡ true → (k.nodes m).id ≡ (h.nodes m).id)
    → has_id k ns t ≡ has_id h ns t
has_id-cong h k [] t same = refl
has_id-cong h k (m ∷ ns) t same =
    rw (same m (ground arith)) (
      ap (λ b. text_eq t (id_text h m) || b) (has_id-cong h k ns t (λ x at. same x (ground arith))))

pub HasDistinctIds-cong :
    (h k : Heap) (ns : List ℕ)
    → ((m : ℕ) → member m ns ≡ true → (k.nodes m).id ≡ (h.nodes m).id)
    → HasDistinctIds h ns
    → HasDistinctIds k ns
HasDistinctIds-cong h k [] same d = tt
HasDistinctIds-cong h k (m ∷ ns) same d = (
  rw (same m (ground arith))
      (has_id-cong h k ns (id_text h m) (λ x at. same x (ground arith)) ∙ d.0),
  HasDistinctIds-cong h k ns (λ x at. same x (ground arith)) d.1,
)

pub HasDistinctIds-snoc :
    (h : Heap) (ns : List ℕ) (n : ℕ)
    → HasDistinctIds h ns
    → has_id h ns (id_text h n) ≡ false
    → HasDistinctIds h (ns ++ (n ∷ []))
HasDistinctIds-snoc h [] n d new = (refl, tt)
HasDistinctIds-snoc h (m ∷ ns) n d new = (
  has_id-snoc h ns n (id_text h m) ∙ ground (arith, d.0, text_eq_sym (id_text h n) (id_text h m)),
  HasDistinctIds-snoc h ns n d.1 (ground arith),
)

-- The node that is found has the id.
pub get_node-id_text :
    (h : Heap) (ns : List ℕ) (t : Text) (n : ℕ)
    → get_node_by_id_string h ns t ≡ some n
    → text_eq t (id_text h n) ≡ true
unfolding get_node_by_id_string
get_node-id_text h [] t n e = cc
get_node-id_text h (m ∷ ns) t n e = elim (Bool-cases (text_eq t (id_text h m))) [
  | inl here ↦ let same : some m ≡ some n = rw here at e in ground (arith, same)
  | inr later ↦ get_node-id_text h ns t n (rw later at e)
]

pub get_node-some :
    (h : Heap) (ns : List ℕ) (t : Text)
    → has_id h ns t ≡ true
    → (n : ℕ) × (get_node_by_id_string h ns t ≡ some n)
unfolding get_node_by_id_string
get_node-some h [] t e = absurd (ground arith)
get_node-some h (m ∷ ns) t e = elim (Bool-cases (text_eq t (id_text h m))) [
  | inl here ↦ (m, rw here refl)
  | inr later ↦ let rest = get_node-some h ns t (ground (arith, e)) in (rest.0, rw later rest.1)
]

pub member-drop_first :
    (x n : ℕ) (ns : List ℕ) → member x (drop_first n ns) ≡ true → member x ns ≡ true
member-drop_first x n [] h = ground arith
member-drop_first x n (m ∷ ns) h = ground (arith, member-drop_first x n ns)

-- Without the node that has an id, the id is not there any more, and the others are.
pub has_id-drop_first :
    (h : Heap) (ns : List ℕ) (t u : Text) (n : ℕ)
    → HasDistinctIds h ns
    → get_node_by_id_string h ns t ≡ some n
    → has_id h (drop_first n ns) u ≡ (has_id h ns u && not (text_eq t u))
unfolding get_node_by_id_string
has_id-drop_first h [] t u n d e = cc
has_id-drop_first h (m ∷ ns) t u n d e = elim (Bool-cases (text_eq t (id_text h m))) [
  | inl here ↦
      let same : some m ≡ some n = rw here at e in
      let at : t ≡ id_text h m = (text_eq_iff t (id_text h m)).0 here in
      ground (arith, same, at, d.0, text_eq_iff u (id_text h m), text_eq_iff (id_text h m) u)
  | inr later ↦
      let found : get_node_by_id_string h ns t ≡ some n = rw later at e in
      ground (
        arith,
        has_id-drop_first h ns t u n d.1 found,
        get_node-id_text h ns t n found,
        text_eq_iff u (id_text h m),
        text_eq_iff t u,
        ==_iff n m,
      )
]

pub HasDistinctIds-drop_first :
    (h : Heap) (n : ℕ) (ns : List ℕ) → HasDistinctIds h ns → HasDistinctIds h (drop_first n ns)
HasDistinctIds-drop_first h n [] d = tt
HasDistinctIds-drop_first h n (m ∷ ns) d = elim (Bool-cases (n == m)) [
  | inl here ↦ rw here d.1
  | inr later ↦ rw later (fewer ns d.0, HasDistinctIds-drop_first h n ns d.1)
]
  where
    fewer :
        (xs : List ℕ)
        → has_id h xs (id_text h m) ≡ false
        → has_id h (drop_first n xs) (id_text h m) ≡ false
    fewer [] a = refl
    fewer (x ∷ xs) a = ground (arith, fewer xs)

module _ (D : Dom) where
  pub has_key-without_key :
      (ids : List (Text × ℕ)) (t u : Text)
      → has_key D (without_key D t ids) u ≡ (has_key D ids u && not (text_eq t u))
  has_key-without_key [] t u = ground arith
  has_key-without_key ((k, n) ∷ ids) t u =
      ground (arith, has_key-without_key ids t u, text_eq_iff k t, text_eq_iff k u, text_eq_iff t u)

  pub has_key-snoc :
      (ids : List (Text × ℕ)) (k u : Text) (n : ℕ)
      → has_key D (ids ++ ((k, n) ∷ [])) u ≡ (has_key D ids u || text_eq k u)
  has_key-snoc [] k u n = ground arith
  has_key-snoc ((j, m) ∷ ids) k u n = ground (arith, has_key-snoc ids k u n)
