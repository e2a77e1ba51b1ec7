-- ===== src/Namespace/Reorder/Least.antt =====
-- The row that `__reorder_getMinWeightNode__` finds is one of least weight.
use control_system_adapter_o.Prelude.{
  ℕ, suc, ◌≡◌, refl, true, false, Option, none, some, List, [], ◌∷◌, arith, Bool-cases,
  Option-cases, inl, inr,
}
use control_system_adapter_o.Prelude.Number.{ℤ, pos, negsuc}
use control_system_adapter_o.Namespace.Reorder.Matrix.{
  MatrixRow, Found, below, better, min_weight_from, get_min_weight_node, sum,
}

-- The weight is not negative.
abbrev pub IsWeight : ℤ → Type 0
IsWeight z = below z (pos 0) ≡ false

abbrev pub AreWeights : List MatrixRow → Type 0
AreWeights [] = Unit {0}
AreWeights (r ∷ rs) = IsWeight (sum r.weights) × AreWeights rs

-- No row that has a node left has a smaller weight.
abbrev pub IsLeast : ℤ → List MatrixRow → Type 0
IsLeast w [] = Unit {0}
IsLeast w (r ∷ rs) = ((n : ℕ) → r.node ≡ some n → below (sum r.weights) w ≡ false) × IsLeast w rs

at_least : (x y z : ℤ) → below x y ≡ false → below y z ≡ false → below x z ≡ false
at_least (pos x) (pos y) (pos z) h k = ground arith
at_least (pos x) (pos y) (negsuc z) h k = refl
at_least (pos x) (negsuc y) (pos z) h k = ground arith
at_least (pos x) (negsuc y) (negsuc z) h k = refl
at_least (negsuc x) (pos y) z h k = ground arith
at_least (negsuc x) (negsuc y) (pos z) h k = ground arith
at_least (negsuc x) (negsuc y) (negsuc z) h k = ground arith

below_self : (z : ℤ) → below z z ≡ false
below_self (pos n) = ground arith
below_self (negsuc n) = ground arith

below_asymmetric : (x y : ℤ) → below x y ≡ true → below y x ≡ false
below_asymmetric (pos x) (pos y) h = ground arith
below_asymmetric (pos x) (negsuc y) h = ground arith
below_asymmetric (negsuc x) (pos y) h = refl
below_asymmetric (negsuc x) (negsuc y) h = ground arith

-- The best row so far is not smaller than `w`.
abbrev StaysAbove : Option Found → ℤ → Type 0
StaysAbove none w = Unit {0}
StaysAbove (some g) w = below g.weight w ≡ false

abbrev IsGood : Option Found → Type 0
IsGood none = Unit {0}
IsGood (some g) = IsWeight g.weight

better-IsGood :
    (i n : ℕ) (w : ℤ) (best : Option Found) → IsWeight w → IsGood best → IsGood (better i n w best)
better-IsGood i n w none h g = h
better-IsGood i n w (some f) h g = elim (Bool-cases (below w f.weight)) [
  | inl e ↦ rw (g, e) h
  | inr e ↦ rw (g, e) g
]

-- The best row behind a step is not larger than the row of the step and the best one before.
better-above :
    (i n : ℕ) (w v : ℤ) (best : Option Found)
    → IsGood best
    → StaysAbove (better i n w best) v
    → (below w v ≡ false) × StaysAbove best v
better-above i n w v none g h = (h, tt)
better-above i n w v (some f) g h = elim (Bool-cases (below w f.weight)) [
  | inl e ↦
      let smaller = rw (g, e) at h in
      (smaller, at_least f.weight w v (below_asymmetric w f.weight e) smaller)
  | inr e ↦ let same = rw (g, e) at h in (at_least w f.weight v e same, same)
]

min_weight_from-IsLeast :
    (i : ℕ) (m : List MatrixRow) (best : Option Found) (f : Found)
    → AreWeights m
    → IsGood best
    → min_weight_from i m best ≡ some f
    → IsLeast f.weight m × StaysAbove best f.weight
unfolding min_weight_from
min_weight_from-IsLeast i [] best f a g e = (tt, rw e (below_self f.weight))
min_weight_from-IsLeast i (r ∷ rs) best f a g e = elim (Option-cases r.node) [
  | inl gone ↦
      let rest = min_weight_from-IsLeast (suc i) rs best f a.1 g (rw gone at e) in
      ((λ n there. ground arith, rest.0), rest.1)
  | inr (k, there) ↦
      let rest =
        min_weight_from-IsLeast (suc i) rs (better i k (sum r.weights) best) f a.1
          (better-IsGood i k (sum r.weights) best a.0 g) (rw there at e) in
      let above = better-above i k (sum r.weights) f.weight best g rest.1 in
      ((λ n _. above.0, rest.0), above.1)
]

-- When no weight is negative, the row that `__reorder_getMinWeightNode__` finds has a weight that no
-- row with a node is below.
pub get_min_weight_node-IsLeast :
    (m : List MatrixRow) (f : Found)
    → AreWeights m
    → get_min_weight_node m ≡ some f
    → IsLeast f.weight m
unfolding get_min_weight_node
get_min_weight_node-IsLeast m f a e = (min_weight_from-IsLeast 0 m none f a tt e).0
