-- ===== src/Namespace/Reorder/Matrix.antt =====
-- The matrix of `reorderNodesMinDependencies`: a row for each node with its weights, and
-- `__reorder_getMinWeightNode__`.
use control_system_adapter_o.Prelude.{
  ℕ, zero, suc, ◌+◌, ◌-◌, ◌==◌, ◌||◌, Bool, true, false, Option, none, some, List, [], ◌∷◌,
  if◌then◌else◌, ltb, leb,
}
use control_system_adapter_o.Prelude.Number.{ℤ, pos, negsuc}

-- Python's integers: what the weights need of them
abbrev pub difference : ℕ → ℕ → ℤ
difference m n = if leb n m then pos (m - n) else negsuc (n - m - 1)

abbrev pub plus : ℤ → ℤ → ℤ
plus (pos m) (pos n) = pos (m + n)
plus (pos m) (negsuc n) = difference m (suc n)
plus (negsuc m) (pos n) = difference n (suc m)
plus (negsuc m) (negsuc n) = negsuc (suc (m + n))

abbrev pub minus : ℤ → ℕ → ℤ
minus z zero = z
minus z (suc n) = plus z (negsuc n)

abbrev pub below : ℤ → ℤ → Bool
below (pos m) (pos n) = ltb m n
below (pos m) (negsuc n) = false
below (negsuc m) (pos n) = true
below (negsuc m) (negsuc n) = ltb n m

abbrev pub sum : List ℤ → ℤ
sum [] = pos 0
sum (z ∷ zs) = plus z (sum zs)

-- A row of the matrix: the node, which is `None` before it is filled and when it is done, and the weights
pub record MatrixRow : Type 0 where
  pub node : Option ℕ
  pub weights : List ℤ

-- `__reorder_getMinWeightNode__`: the index, the node and the weight; `none` for (-1, None, -1)
pub record Found : Type 0 where
  pub index : ℕ
  pub node : ℕ
  pub weight : ℤ

abbrev pub better : ℕ → ℕ → ℤ → Option Found → Option Found
better i n w none = some (record { index = i; node = n; weight = w })
better i n w (some f) =
    if below f.weight (pos 0) || below w f.weight
    then some (record { index = i; node = n; weight = w })
    else some f

abbrev pub visit : ℕ → MatrixRow → Option Found → Option Found
visit i r best = elim r.node [ none ↦ best | some n ↦ better i n (sum r.weights) best ]

unfoldable pub min_weight_from : ℕ → List MatrixRow → Option Found → Option Found
min_weight_from i [] best = best
min_weight_from i (r ∷ rs) best = min_weight_from (suc i) rs (visit i r best)

unfoldable pub get_min_weight_node : List MatrixRow → Option Found
unfolding min_weight_from
get_min_weight_node m = min_weight_from 0 m none

-- `self.nodes.index(node)`, with its `ValueError`
unfoldable pub index : List ℕ → ℕ → Option ℕ
index [] n = none
index (m ∷ ms) n =
    let rest = index ms n in
    if m == n then some 0 else elim rest [ none ↦ none | some i ↦ some (suc i) ]
