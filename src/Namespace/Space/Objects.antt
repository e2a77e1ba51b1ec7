-- ===== src/Namespace/Space/Objects.antt =====
-- What comes after the linking keeps the objects of the references.
use control_system_adapter_o.Prelude.{
  ℕ, suc, ◌<◌, ◌≤◌, ◌==◌, ◌≡◌, refl, ◌∙◌, false, List, [], ◌∷◌, arith, Bool-cases, inl, inr,
}
use control_system_adapter_o.Namespace.Heap.{
  Target, nothing, unlinked, node, Reference, Heap, put_reference, add_reference, references_of,
  member, update_all_inverse_references, update_inverse_references, update_inverse, update_inverses,
  has_inverse_reference_target, has_reference_target, add_inverse_reference_target,
}
use control_system_adapter_o.Namespace.Space.{invert_all, invert_to, invert_each, inverted}

-- The objects of the references that were there before stay through the rest.
abbrev pub Keeps : Heap → Heap → Type 0
Keeps h i = ((x : ℕ) → x < h.next → i.references x ≡ h.references x) × (h.next ≤ i.next)

Keeps-refl : (h : Heap) → Keeps h h
Keeps-refl h = ((λ x e. refl), omega arith)

Keeps-then : (h i j : Heap) → Keeps h i → Keeps i j → Keeps h j
Keeps-then h i j a b = ((λ x e. b.0 x (omega (arith, a.1)) ∙ a.0 x e), omega (arith, a.1, b.1))

add_reference-Keeps : (m r : ℕ) (h : Heap) → Keeps h (add_reference m r h)
unfolding add_reference
add_reference-Keeps m r h = elim (Bool-cases (member r (h.nodes m).references)) [
  | inl e ↦ rw e (Keeps-refl h)
  | inr e ↦ rw e ((λ x e1. refl), omega arith)
]

invert_to-Keeps : (n : ℕ) (r : Reference) (t : Target) (h : Heap) → Keeps h (invert_to n r t h)
invert_to-Keeps n r nothing h = Keeps-refl h
invert_to-Keeps n r (unlinked t) h = Keeps-refl h
invert_to-Keeps n r (node m) h =
    let h1 : Heap = record (put_reference h.next (inverted n r m) h) { next = suc h.next } in
    Keeps-then h h1 (add_reference m h.next h1)
      ((λ x e. let other : (x == h.next) ≡ false = ground arith in rw other refl), omega arith)
      (add_reference-Keeps m h.next h1)

invert_each-Keeps : (n : ℕ) (rs : List Reference) (h : Heap) → Keeps h (invert_each n rs h)
invert_each-Keeps n [] h = Keeps-refl h
invert_each-Keeps n (r ∷ rs) h = elim (Bool-cases r.is_forward) [
  | inl e ↦ rw e (invert_each-Keeps n rs h)
  | inr e ↦ rw e (
      Keeps-then h (invert_to n r r.target h) (invert_each n rs (invert_to n r r.target h))
        (invert_to-Keeps n r r.target h) (invert_each-Keeps n rs (invert_to n r r.target h)))
]

pub invert_all-Keeps : (ns : List ℕ) (h : Heap) → Keeps h (invert_all ns h)
unfolding invert_all
invert_all-Keeps [] h = Keeps-refl h
invert_all-Keeps (n ∷ ns) h =
    let h1 = invert_each n (references_of h n) h in
    Keeps-then h h1 (invert_all ns h1) (invert_each-Keeps n (references_of h n) h)
      (invert_all-Keeps ns h1)

update_inverse-objects :
    (n : ℕ) (t : Target) (h : Heap) → (update_inverse n t h).references ≡ h.references
unfolding add_inverse_reference_target
update_inverse-objects n nothing h = refl
update_inverse-objects n (unlinked t) h = refl
update_inverse-objects n (node m) h = elim (Bool-cases (has_inverse_reference_target h m n)) [
  | inl i ↦ rw i refl
  | inr i ↦ elim (Bool-cases (has_reference_target h m n)) [
    | inl o ↦ rw (i, o) refl
    | inr o ↦ rw (i, o) refl
  ]
]

update_inverses-objects :
    (n : ℕ) (rs : List Reference) (h : Heap) → (update_inverses n rs h).references ≡ h.references
update_inverses-objects n [] h = refl
update_inverses-objects n (r ∷ rs) h =
    update_inverses-objects n rs (update_inverse n r.target h) ∙ update_inverse-objects n r.target h

pub update_all-objects :
    (ns : List ℕ) (h : Heap) → (update_all_inverse_references ns h).references ≡ h.references
unfolding update_all_inverse_references update_inverse_references
update_all-objects [] h = refl
update_all-objects (n ∷ ns) h =
    update_all-objects ns (update_inverse_references n h)
    ∙ update_inverses-objects n (references_of h n) h
