-- ===== src/Namespace/Reorder/Fill.antt =====
-- Filling the column of the nodes.
use control_system_adapter_o.Prelude.{
  ℕ, zero, suc, ◌<◌, ◌==◌, ◌≡◌, refl, ap, ◌∙◌, true, false, Option, none, some, List, [], ◌∷◌, ◌++◌,
  arith,
}
use control_system_adapter_o.Namespace.Heap.{member}
use control_system_adapter_o.Namespace.Reorder.Matrix.{MatrixRow, index}
use control_system_adapter_o.Namespace.Reorder.{change_row, fill_nodes, empty_rows}
use control_system_adapter_o.Namespace.Reorder.Column.{
  occurrences, length, column, remaining, total,
}

-- The entries before the nodes are filled, and behind it
abbrev pub vacant : List ℕ → List (Option ℕ)
vacant [] = []
vacant (_ ∷ ns) = none ∷ vacant ns

abbrev pub full : List ℕ → List (Option ℕ)
full [] = []
full (n ∷ ns) = some n ∷ full ns

abbrev pub IsDistinct : List ℕ → Type 0
IsDistinct [] = Unit {0}
IsDistinct (n ∷ ns) = (member n ns ≡ false) × IsDistinct ns

-- The nodes stand in the list from `k` on.
abbrev StandFrom : List ℕ → ℕ → List ℕ → Type 0
StandFrom all k [] = Unit {0}
StandFrom all k (n ∷ ns) = (index all n ≡ some k) × StandFrom all (suc k) ns

StandFrom-behind :
    (m : ℕ) (ms : List ℕ) (k : ℕ) (ns : List ℕ)
    → member m ns ≡ false
    → StandFrom ms k ns
    → StandFrom (m ∷ ms) (suc k) ns
unfolding index
StandFrom-behind m ms k [] new h = tt
StandFrom-behind m ms k (n ∷ ns) new h =
    let other : (m == n) ≡ false = ground arith in
    (rw (other, h.0) refl, StandFrom-behind m ms (suc k) ns (ground arith) h.1)

StandFrom-all : (ns : List ℕ) → IsDistinct ns → StandFrom ns 0 ns
unfolding index
StandFrom-all [] h = tt
StandFrom-all (n ∷ ns) h = (ground arith, StandFrom-behind n ns 0 ns h.0 (StandFrom-all ns h.1))

column-empty_rows : (all ns : List ℕ) → column (empty_rows all ns) ≡ vacant ns
column-empty_rows all [] = refl
column-empty_rows all (n ∷ ns) = ap (λ os. none ∷ os) (column-empty_rows all ns)

abbrev extent : List (Option ℕ) → ℕ
extent [] = 0
extent (o ∷ os) = suc (extent os)

abbrev put_at : ℕ → Option ℕ → List (Option ℕ) → List (Option ℕ)
put_at k x [] = []
put_at zero x (o ∷ os) = x ∷ os
put_at (suc k) x (o ∷ os) = o ∷ put_at k x os

column-put :
    (n k : ℕ) (m : List MatrixRow)
    → column (change_row (λ r. record r { node = some n }) k m) ≡ put_at k (some n) (column m)
column-put n k [] = refl
column-put n zero (r ∷ rs) = refl
column-put n (suc k) (r ∷ rs) = ap (λ os. r.node ∷ os) (column-put n k rs)

put_at-behind :
    (x o : Option ℕ) (os rest : List (Option ℕ))
    → put_at (extent os) x (os ++ (o ∷ rest)) ≡ (os ++ (x ∷ [])) ++ rest
put_at-behind x o [] rest = refl
put_at-behind x o (p ∷ os) rest = ap (λ l. p ∷ l) (put_at-behind x o os rest)

extent-behind : (x : Option ℕ) (os : List (Option ℕ)) → extent (os ++ (x ∷ [])) ≡ suc (extent os)
extent-behind x [] = refl
extent-behind x (o ∷ os) = ap (λ k. suc k) (extent-behind x os)

shift : (x : Option ℕ) (os rest : List (Option ℕ)) → (os ++ (x ∷ [])) ++ rest ≡ os ++ (x ∷ rest)
shift x [] rest = refl
shift x (o ∷ os) rest = ap (λ l. o ∷ l) (shift x os rest)

column-fill_behind :
    (all ns : List ℕ) (os : List (Option ℕ)) (m : List MatrixRow)
    → StandFrom all (extent os) ns
    → column m ≡ os ++ vacant ns
    → column (fill_nodes all ns m) ≡ os ++ full ns
unfolding fill_nodes
column-fill_behind all [] os m h e = e
column-fill_behind all (n ∷ ns) os m h e =
    let put =
      column-put n (extent os) m
      ∙ ap (put_at (extent os) (some n)) e
      ∙ put_at-behind (some n) none os (vacant ns) in
    let next : StandFrom all (extent (os ++ (some n ∷ []))) ns =
      rw (extent-behind (some n) os) h.1 in
    rw (fill_nodes, h.0)
      (column-fill_behind all ns (os ++ (some n ∷ []))
          (change_row (λ r. record r { node = some n }) (extent os) m) next put
        ∙ shift (some n) os (full ns))

-- The filled column holds the nodes in their order.
pub column-fill_nodes :
    (ns : List ℕ) → IsDistinct ns → column (fill_nodes ns ns (empty_rows ns ns)) ≡ full ns
column-fill_nodes ns h =
    column-fill_behind ns ns [] (empty_rows ns ns) (StandFrom-all ns h) (column-empty_rows ns ns)

pub remaining-full : (x : ℕ) (ns : List ℕ) → remaining x (full ns) ≡ occurrences x ns
remaining-full x [] = refl
remaining-full x (n ∷ ns) = ground (arith, remaining-full x ns)

pub total-full : (ns : List ℕ) → total (full ns) ≡ length ns
total-full [] = refl
total-full (n ∷ ns) = ground (arith, total-full ns)

pub occurrences-member : (x : ℕ) (ns : List ℕ) → 0 < occurrences x ns → member x ns ≡ true
occurrences-member x [] h = absurd (omega arith)
occurrences-member x (n ∷ ns) h = ground (arith, occurrences-member x ns)
