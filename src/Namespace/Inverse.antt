-- ===== src/Namespace/Inverse.antt =====
-- After all inverse references are updated, the target of a reference knows the node that holds it.
use control_system_adapter_o.Prelude.{
  ℕ, ◌==◌, ◌≡◌, refl, sym, ◌∙◌, true, some, List, [], ◌∷◌, ◌++◌, arith, Bool-cases, inl, inr, ◌⊎◌,
  ==_iff,
}
use control_system_adapter_o.Namespace.Heap.{
  Target, nothing, unlinked, node, Reference, Heap, new_reference, put_node, is_node, any_target,
  references_of, has_reference_target, has_inverse_reference_target, add_inverse_reference_target,
  update_inverse, update_inverses, update_inverse_references, update_all_inverse_references, member,
}

any_target-append :
    (n : ℕ) (rs ss : List Reference) → any_target n rs ≡ true → any_target n (rs ++ ss) ≡ true
any_target-append n [] ss h = ground arith
any_target-append n (r ∷ rs) ss h = ground (arith, any_target-append n rs ss)

any_target-last :
    (n : ℕ) (rs : List Reference) (r : Reference)
    → is_node n r.target ≡ true
    → any_target n (rs ++ (r ∷ [])) ≡ true
any_target-last n [] r h = rw h refl
any_target-last n (s ∷ rs) r h = ground (arith, any_target-last n rs r h)

-- The node `m` knows that `n` references it: by its inverse references, or by a reference of its own.
abbrev pub Knows : Heap → ℕ → ℕ → Type 0
Knows h m n = (has_inverse_reference_target h m n ≡ true) ⊎ (has_reference_target h m n ≡ true)

-- Behind the change of one node's inverse references
abbrev with_inverse : ℕ → ℕ → Heap → Heap
with_inverse m n h =
    put_node m
      (record (h.nodes m) {
        referenced_by = (h.nodes m).referenced_by ++ (new_reference (node n) true (some m) ∷ []);
      })
      h

references-with_inverse :
    (m n x : ℕ) (h : Heap) → references_of (with_inverse m n h) x ≡ references_of h x
unfolding references_of
references-with_inverse m n x h = elim (Bool-cases (x == m)) [
  | inl e ↦ rw (e, (==_iff x m).0 e) refl
  | inr e ↦ rw e refl
]

inverse-kept :
    (m n a b : ℕ) (h : Heap)
    → has_inverse_reference_target h a b ≡ true
    → has_inverse_reference_target (with_inverse m n h) a b ≡ true
unfolding has_inverse_reference_target
inverse-kept m n a b h k = elim (Bool-cases (a == m)) [
  | inl e ↦ rw e (
      any_target-append b (h.nodes m).referenced_by (new_reference (node n) true (some m) ∷ [])
        (rw (sym ((==_iff a m).0 e)) k))
  | inr e ↦ rw e k
]

refl_test : (m : ℕ) → (m == m) ≡ true
refl_test m = ground arith

inverse-new : (m n : ℕ) (h : Heap) → has_inverse_reference_target (with_inverse m n h) m n ≡ true
unfolding has_inverse_reference_target
inverse-new m n h = rw (refl_test m) (
    any_target-last n (h.nodes m).referenced_by (new_reference (node n) true (some m))
      (refl_test n))

own-kept :
    (m n a b : ℕ) (h : Heap)
    → has_reference_target h a b ≡ true
    → has_reference_target (with_inverse m n h) a b ≡ true
unfolding has_reference_target
own-kept m n a b h k = rw (references-with_inverse m n a h) k

-- What one step keeps
record Extends (h changed : Heap) : Type 0 where
  same : (x : ℕ) → references_of changed x ≡ references_of h x
  knows : (a b : ℕ) → Knows h a b → Knows changed a b

Extends-refl : (h : Heap) → Extends h h
Extends-refl h = record { same = λ x. refl; knows = λ a b k. k }

Extends-then : (h i j : Heap) → Extends h i → Extends i j → Extends h j
Extends-then h i j e f = record {
  same = λ x. f.same x ∙ e.same x;
  knows = λ a b k. f.knows a b (e.knows a b k);
}

Extends-with_inverse : (m n : ℕ) (h : Heap) → Extends h (with_inverse m n h)
Extends-with_inverse m n h = record {
  same = λ x. references-with_inverse m n x h;
  knows = λ a b k. elim k [
    | inl i ↦ inl (inverse-kept m n a b h i)
    | inr o ↦ inr (own-kept m n a b h o)
  ];
}

abbrev KnowsTarget : Heap → ℕ → Target → Type 0
KnowsTarget h n nothing = Unit {0}
KnowsTarget h n (unlinked t) = Unit {0}
KnowsTarget h n (node m) = Knows h m n

update_inverse_lem :
    (n : ℕ) (t : Target) (h : Heap)
    → Extends h (update_inverse n t h) × KnowsTarget (update_inverse n t h) n t
unfolding add_inverse_reference_target
update_inverse_lem n nothing h = (Extends-refl h, tt)
update_inverse_lem n (unlinked t) h = (Extends-refl h, tt)
update_inverse_lem n (node m) h = elim (Bool-cases (has_inverse_reference_target h m n)) [
  | inl i ↦ rw i (Extends-refl h, inl i)
  | inr i ↦ elim (Bool-cases (has_reference_target h m n)) [
    | inl o ↦ rw (i, o) (Extends-refl h, inr o)
    | inr o ↦ rw (i, o) (Extends-with_inverse m n h, inl (inverse-new m n h))
  ]
]

abbrev pub AllKnow : Heap → ℕ → List Reference → Type 0
AllKnow h n [] = Unit {0}
AllKnow h n (r ∷ rs) = KnowsTarget h n r.target × AllKnow h n rs

KnowsTarget-kept :
    (h i : Heap) (n : ℕ) (t : Target) → Extends h i → KnowsTarget h n t → KnowsTarget i n t
KnowsTarget-kept h i n nothing e k = tt
KnowsTarget-kept h i n (unlinked t) e k = tt
KnowsTarget-kept h i n (node m) e k = e.knows m n k

AllKnow-kept :
    (h i : Heap) (n : ℕ) (rs : List Reference) → Extends h i → AllKnow h n rs → AllKnow i n rs
AllKnow-kept h i n [] e k = tt
AllKnow-kept h i n (r ∷ rs) e k =
    (KnowsTarget-kept h i n r.target e k.0, AllKnow-kept h i n rs e k.1)

update_inverses_lem :
    (n : ℕ) (rs : List Reference) (h : Heap)
    → Extends h (update_inverses n rs h) × AllKnow (update_inverses n rs h) n rs
update_inverses_lem n [] h = (Extends-refl h, tt)
update_inverses_lem n (r ∷ rs) h =
    let h1 = update_inverse n r.target h in
    let one = update_inverse_lem n r.target h in
    let rest = update_inverses_lem n rs h1 in
    (
      Extends-then h h1 (update_inverses n rs h1) one.0 rest.0,
      (KnowsTarget-kept h1 (update_inverses n rs h1) n r.target rest.0 one.1, rest.1),
    )

update_all-Extends : (ns : List ℕ) (h : Heap) → Extends h (update_all_inverse_references ns h)
unfolding update_all_inverse_references update_inverse_references
update_all-Extends [] h = Extends-refl h
update_all-Extends (n ∷ ns) h =
    Extends-then h (update_inverse_references n h)
      (update_all_inverse_references ns (update_inverse_references n h))
      (update_inverses_lem n (references_of h n) h).0
      (update_all-Extends ns (update_inverse_references n h))

-- After `updateInverseReferences` has run for all nodes, every node that a reference of one of them
-- points to has that one in its inverse references or references it itself.
pub update_all_inverse_references-AllKnow :
    (ns : List ℕ) (h : Heap) (n : ℕ)
    → member n ns ≡ true
    → AllKnow
        (update_all_inverse_references ns h)
        n
        (references_of (update_all_inverse_references ns h) n)
unfolding update_all_inverse_references update_inverse_references
update_all_inverse_references-AllKnow [] h n at = ground arith
update_all_inverse_references-AllKnow (m ∷ ns) h n at = elim (Bool-cases (n == m)) [
  | inl e ↦
      let h1 = update_inverse_references m h in
      let end = update_all_inverse_references ns h1 in
      let mine = update_inverses_lem m (references_of h m) h in
      let later = update_all-Extends ns h1 in
      let kept = AllKnow-kept h1 end m (references_of h m) later mine.1 in
      rw ((==_iff n m).0 e, (Extends-then h h1 end mine.0 later).same m) kept
  | inr e ↦
      update_all_inverse_references-AllKnow ns (update_inverse_references m h) n (ground arith)
]
