-- ===== src/Namespace/Reorder/Column.antt =====
-- The column of the nodes in the matrix, and what the row of least weight takes away from it.
use control_system_adapter_o.Prelude.{
  ℕ, zero, suc, ◌+◌, ◌<◌, ◌==◌, ◌≡◌, refl, ap, Option, none, some, List, [], ◌∷◌, ◌++◌,
  if◌then◌else◌, arith, Option-cases, inl, inr, ◌⊎◌,
}
use control_system_adapter_o.Prelude.Number.{ℤ}
use control_system_adapter_o.Namespace.Reorder.Matrix.{
  MatrixRow, Found, better, visit, min_weight_from, get_min_weight_node, sum,
}
use control_system_adapter_o.Namespace.Reorder.{change_row, clear}

abbrev pub occurrences : ℕ → List ℕ → ℕ
occurrences x [] = 0
occurrences x (y ∷ ys) = (if x == y then 1 else 0) + occurrences x ys

abbrev pub length : List ℕ → ℕ
length [] = 0
length (y ∷ ys) = suc (length ys)

-- The column of the nodes, and how often a node stands in it
abbrev pub column : List MatrixRow → List (Option ℕ)
column [] = []
column (r ∷ rs) = r.node ∷ column rs

abbrev pub one : ℕ → Option ℕ → ℕ
one x none = 0
one x (some n) = if x == n then 1 else 0

abbrev pub remaining : ℕ → List (Option ℕ) → ℕ
remaining x [] = 0
remaining x (o ∷ os) = one x o + remaining x os

abbrev pub filled : Option ℕ → ℕ
filled none = 0
filled (some n) = 1

abbrev pub total : List (Option ℕ) → ℕ
total [] = 0
total (o ∷ os) = filled o + total os

-- The entry at `i` is the node `n`.
abbrev pub Holds : List (Option ℕ) → ℕ → ℕ → Type 0
Holds [] i n = ⊥
Holds (o ∷ os) zero n = o ≡ some n
Holds (o ∷ os) (suc i) n = Holds os i n

abbrev pub emptied : List (Option ℕ) → ℕ → List (Option ℕ)
emptied [] i = []
emptied (o ∷ os) zero = none ∷ os
emptied (o ∷ os) (suc i) = o ∷ emptied os i

pub remaining-emptied :
    (x : ℕ) (os : List (Option ℕ)) (i n : ℕ)
    → Holds os i n
    → remaining x os ≡ (if x == n then 1 else 0) + remaining x (emptied os i)
remaining-emptied x [] i n h = absurd h
remaining-emptied x (o ∷ os) zero n h = rw h (omega arith)
remaining-emptied x (o ∷ os) (suc i) n h = ground (arith, remaining-emptied x os i n h)

pub total-emptied :
    (os : List (Option ℕ)) (i n : ℕ) → Holds os i n → total os ≡ suc (total (emptied os i))
total-emptied [] i n h = absurd h
total-emptied (o ∷ os) zero n h = rw h (omega arith)
total-emptied (o ∷ os) (suc i) n h = ground (arith, total-emptied os i n h)

pub column-clear :
    (m : List MatrixRow) (i : ℕ) → column (change_row clear i m) ≡ emptied (column m) i
column-clear [] i = refl
column-clear (r ∷ rs) zero = refl
column-clear (r ∷ rs) (suc i) = ap (λ os. r.node ∷ os) (column-clear rs i)

pub better-cases :
    (i n : ℕ) (w : ℤ) (best : Option Found) (f : Found)
    → better i n w best ≡ some f
    → (best ≡ some f) ⊎ ((f.index ≡ i) × (f.node ≡ n))
better-cases i n w none f h = ground arith
better-cases i n w (some g) f h = ground arith

pub visit-cases :
    (i : ℕ) (r : MatrixRow) (best : Option Found) (f : Found)
    → visit i r best ≡ some f
    → (best ≡ some f) ⊎ ((f.index ≡ i) × (r.node ≡ some f.node))
visit-cases i r best f h = elim (Option-cases r.node) [
  | inl e ↦ ground arith
  | inr (n, e) ↦ ground (arith, better-cases i n (sum r.weights) best f)
]

pub found-Holds :
    (i : ℕ) (m : List MatrixRow) (best : Option Found) (f : Found)
    → min_weight_from i m best ≡ some f
    → (best ≡ some f) ⊎ ((k : ℕ) × (f.index ≡ i + k) × Holds (column m) k f.node)
unfolding min_weight_from
found-Holds i [] best f h = inl h
found-Holds i (r ∷ rs) best f h = elim (found-Holds (suc i) rs (visit i r best) f h) [
  | inl e ↦ elim (visit-cases i r best f e) [
    | inl e1 ↦ inl e1
    | inr (a, b) ↦ inr (0, omega arith, b)
  ]
  | inr (k, e, held) ↦ inr (suc k, omega arith, held)
]

pub visit-none :
    (i : ℕ) (r : MatrixRow) (best : Option Found)
    → visit i r best ≡ none
    → (r.node ≡ none) × (best ≡ none)
visit-none i r best h = ground arith

pub found-none :
    (i : ℕ) (m : List MatrixRow) (best : Option Found)
    → min_weight_from i m best ≡ none
    → (best ≡ none) × (total (column m) ≡ 0)
unfolding min_weight_from
found-none i [] best h = (h, refl)
found-none i (r ∷ rs) best h =
    let rest = found-none (suc i) rs (visit i r best) h in
    ((visit-none i r best rest.0).1, rw ((visit-none i r best rest.0).0, rest.1) refl)

pub remaining-total : (x : ℕ) (os : List (Option ℕ)) → total os ≡ 0 → remaining x os ≡ 0
remaining-total x [] e = refl
remaining-total x (none ∷ os) e = ground (arith, remaining-total x os)
remaining-total x (some n ∷ os) e = ground arith

pub occurrences-append :
    (x : ℕ) (ns ms : List ℕ) → occurrences x (ns ++ ms) ≡ occurrences x ns + occurrences x ms
occurrences-append x [] ms = omega arith
occurrences-append x (n ∷ ns) ms = ground (arith, occurrences-append x ns ms)

pub held_somewhere :
    (m : List MatrixRow) (f : Found)
    → get_min_weight_node m ≡ some f
    → Holds (column m) f.index f.node
unfolding get_min_weight_node
held_somewhere m f e = elim (found-Holds 0 m none f e) [
  | inl wrong ↦ ground arith
  | inr (k, at, held) ↦ let same : f.index ≡ k = omega arith in rw same held
]

pub nothing_left : (m : List MatrixRow) → get_min_weight_node m ≡ none → total (column m) ≡ 0
unfolding get_min_weight_node
nothing_left m e = (found-none 0 m none e).1

pub remaining_held : (os : List (Option ℕ)) (i n : ℕ) → Holds os i n → 0 < remaining n os
remaining_held os i n h = ground (arith, remaining-emptied n os i n h)

-- What is left when the node at an entry is taken away
abbrev pub Taken : List (Option ℕ) → List (Option ℕ) → ℕ → Type 0
Taken os rest n =
    ((x : ℕ) → remaining x os ≡ (if x == n then 1 else 0) + remaining x rest)
    × (total os ≡ suc (total rest))

pub emptied-Taken :
    (os rest : List (Option ℕ)) (i n : ℕ) → Holds os i n → rest ≡ emptied os i → Taken os rest n
emptied-Taken os rest i n h e = rw e ((λ x. remaining-emptied x os i n h), total-emptied os i n h)
