-- ===== src/Namespace/Sanitize/Healthy.antt =====
-- What a node is after it was sanitized.
use control_system_adapter_o.Prelude.{
  ℕ, ◌==◌, ◌≡◌, refl, sym, ◌∙◌, true, false, List, [], ◌∷◌, arith, Bool-cases, inl, inr, ◌⊎◌,
  ==_iff,
}
use control_system_adapter_o.Prelude.Result.{
  Result, ok, err, Run, done, raised, with_value, attribute_error,
}
use control_system_adapter_o.Namespace.Heap.{
  Target, nothing, unlinked, node, Reference, Heap, looked_up, references_of, has_reference_target,
}
use control_system_adapter_o.Namespace.Sanitize.{
  is_valid, valid_references, references_back, true_inverses, is_own_target, necessary_inverses,
  with_valid_references, with_true_inverses, with_referenced_by, sanitize_node,
}

abbrev pub AllValid : List Reference → Type 0
AllValid [] = Unit {0}
AllValid (r ∷ rs) = (is_valid r ≡ true) × AllValid rs

-- The targets of the inverse references reference the node, and it does not reference them.
abbrev pub AllBack : Heap → ℕ → List Reference → Type 0
AllBack h n [] = Unit {0}
AllBack h n (r ∷ rs) = (references_back h n r.target ≡ true) × AllBack h n rs

abbrev pub NoneOwn : Heap → ℕ → List Reference → Type 0
NoneOwn h n [] = Unit {0}
NoneOwn h n (r ∷ rs) = (is_own_target h n r.target ≡ false) × NoneOwn h n rs

valid_references-AllValid :
    (object : ℕ → Reference) (rs : List ℕ)
    → AllValid (looked_up object (valid_references object rs))
unfolding valid_references
valid_references-AllValid object [] = tt
valid_references-AllValid object (r ∷ rs) = elim (Bool-cases (is_valid (object r))) [
  | inl e ↦ rw e (e, valid_references-AllValid object rs)
  | inr e ↦ rw e (valid_references-AllValid object rs)
]

true_inverses-AllBack :
    (h : Heap) (n : ℕ) (rs : List Reference) → AllBack h n (true_inverses h n rs)
unfolding true_inverses
true_inverses-AllBack h n [] = tt
true_inverses-AllBack h n (r ∷ rs) = elim (Bool-cases (references_back h n r.target)) [
  | inl e ↦ rw e (e, true_inverses-AllBack h n rs)
  | inr e ↦ rw e (true_inverses-AllBack h n rs)
]

-- The references of all nodes are the same in both heaps.
abbrev SameReferences : Heap → Heap → Type 0
SameReferences h i = (x : ℕ) → references_of i x ≡ references_of h x

with_referenced_by-same :
    (n : ℕ) (rs : List Reference) (h : Heap) → SameReferences h (with_referenced_by n rs h)
unfolding references_of
with_referenced_by-same n rs h x = elim (Bool-cases (x == n)) [
  | inl e ↦ rw (e, (==_iff x n).0 e) refl
  | inr e ↦ rw e refl
]

references_back-same :
    (h i : Heap) (n : ℕ) (t : Target)
    → SameReferences h i
    → references_back i n t ≡ references_back h n t
unfolding references_back has_reference_target
references_back-same h i n nothing s = refl
references_back-same h i n (unlinked t) s = refl
references_back-same h i n (node m) s = rw (s m) refl

is_own_target-same :
    (h i : Heap) (n : ℕ) (t : Target)
    → SameReferences h i
    → is_own_target i n t ≡ is_own_target h n t
unfolding is_own_target has_reference_target
is_own_target-same h i n nothing s = refl
is_own_target-same h i n (unlinked t) s = refl
is_own_target-same h i n (node m) s = rw (s n) refl

AllBack-same :
    (h i : Heap) (n : ℕ) (rs : List Reference)
    → SameReferences h i
    → AllBack h n rs
    → AllBack i n rs
AllBack-same h i n [] s a = tt
AllBack-same h i n (r ∷ rs) s a =
    (references_back-same h i n r.target s ∙ a.0, AllBack-same h i n rs s a.1)

NoneOwn-same :
    (h i : Heap) (n : ℕ) (rs : List Reference)
    → SameReferences h i
    → NoneOwn h n rs
    → NoneOwn i n rs
NoneOwn-same h i n [] s a = tt
NoneOwn-same h i n (r ∷ rs) s a =
    (is_own_target-same h i n r.target s ∙ a.0, NoneOwn-same h i n rs s a.1)

self : (n : ℕ) → (n == n) ≡ true
self n = ground arith

put-referenced_by :
    (n : ℕ) (rs : List Reference) (h : Heap)
    → ((with_referenced_by n rs h).nodes n).referenced_by ≡ rs
put-referenced_by n rs h = rw (self n) refl

abbrev pub HasOwn : Heap → ℕ → List Reference → Type 0
HasOwn h n [] = ⊥
HasOwn h n (r ∷ rs) = (is_own_target h n r.target ≡ true) ⊎ HasOwn h n rs

-- What the last check of the inverse references gives
abbrev Checked : Heap → ℕ → List Reference → Result (List Reference) → Type 0
Checked h n rs r = ((r ≡ ok rs) × NoneOwn h n rs) ⊎ ((r ≡ err attribute_error) × HasOwn h n rs)

necessary_inverses-Checked :
    (h : Heap) (n : ℕ) (rs : List Reference) → Checked h n rs (necessary_inverses h n rs)
unfolding necessary_inverses
necessary_inverses-Checked h n [] = inl (refl, tt)
necessary_inverses-Checked h n (r ∷ rs) = elim (Bool-cases (is_own_target h n r.target)) [
  | inl own ↦ inr (rw own refl, inl own)
  | inr other ↦ elim (necessary_inverses-Checked h n rs) [
    | inl all ↦ inl (rw (other, all.0) refl, (rw other refl, all.1))
    | inr some_own ↦ inr (rw (other, some_own.0) refl, inr some_own.1)
  ]
]

-- The references are links between nodes, and the inverse references are true ones, in any case.
pub record IsLinked (h : Heap) (n : ℕ) : Type 0 where
  pub valid : AllValid (references_of h n)
  pub back : AllBack h n (h.nodes n).referenced_by

-- What sanitizing a node gives: none of the inverse references comes from a node that the node
-- references itself, or the exception that one does.
abbrev pub Sanitized : ℕ → Run Heap → Type 0
Sanitized n (done h) = IsLinked h n × NoneOwn h n (h.nodes n).referenced_by
Sanitized n (raised x h) =
    (x ≡ attribute_error) × IsLinked h n × HasOwn h n (h.nodes n).referenced_by

valid_after : (n : ℕ) (h : Heap) → AllValid (references_of (with_valid_references n h) n)
unfolding references_of
valid_after n h = rw (self n) (valid_references-AllValid h.references (h.nodes n).references)

with_referenced_by-IsLinked :
    (n : ℕ) (rs : List Reference) (h : Heap)
    → AllValid (references_of h n)
    → AllBack h n rs
    → IsLinked (with_referenced_by n rs h) n
with_referenced_by-IsLinked n rs h valid back =
    let same = with_referenced_by-same n rs h in
    record {
      valid = rw (same n) valid;
      back =
          rw (put-referenced_by n rs h) (AllBack-same h (with_referenced_by n rs h) n rs same back);
    }

Checked-Sanitized :
    (n : ℕ) (h : Heap) (rs : List Reference) (r : Result (List Reference))
    → (h.nodes n).referenced_by ≡ rs
    → IsLinked h n
    → Checked h n rs r
    → Sanitized n (with_value r h (λ kept. done (with_referenced_by n kept h)))
Checked-Sanitized n h rs r e k (inl all) = rw all.0 (
  with_referenced_by-IsLinked n rs h k.valid (rw (sym e) k.back),
  rw (put-referenced_by n rs h)
      (NoneOwn-same h (with_referenced_by n rs h) n rs (with_referenced_by-same n rs h) all.1),
)
Checked-Sanitized n h rs r e k (inr own) = rw own.0 (refl, k, rw e own.1)

-- `sanitize` of any node leaves references that have nodes as their targets and types, and inverse
-- references whose targets are nodes that reference the node, also when it raises. When it does not,
-- the node references none of those targets. When it does, the exception is an `AttributeError`, and
-- the node references the target of one of its inverse references.
pub sanitize_node-Sanitized : (h : Heap) (n : ℕ) → Sanitized n (sanitize_node n h)
unfolding sanitize_node
sanitize_node-Sanitized h n =
    let h1 = with_valid_references n h in
    let h2 = with_true_inverses n h1 in
    Checked-Sanitized n h2 (h2.nodes n).referenced_by
      (necessary_inverses h2 n (h2.nodes n).referenced_by) refl
      (with_referenced_by-IsLinked n (true_inverses h1 n (h1.nodes n).referenced_by) h1
        (valid_after n h) (true_inverses-AllBack h1 n (h1.nodes n).referenced_by))
      (necessary_inverses-Checked h2 n (h2.nodes n).referenced_by)
