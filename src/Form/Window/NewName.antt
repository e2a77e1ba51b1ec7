-- ===== src/Form/Window/NewName.antt =====
-- The name of a new history setting is found, and is new.
use control_system_adapter_o.Prelude.{
  ℕ, zero, suc, ◌==◌, ==_iff, ◌+◌, ◌<◌, ◌≤◌, ◌≡◌, ◌≢◌, refl, sym, ap, ◌∙◌, true, false, some, List,
  [], ◌∷◌, if◌then◌else◌, arith, Bool-cases, inl, inr,
}
use native.Mathlib.Numerals.{add-one}
use control_system_adapter_o.Prelude.Text.{Text, codes, text_eq, text_eq_iff, remove_prefix}
use control_system_adapter_o.Prelude.Number.{pos, str, int, int-str}
use control_system_adapter_o.Form.Qt.{contains}
use control_system_adapter_o.Form.Window.Histories.{numbered, next_name, count, new_name}

numbered-injective : (i j : ℕ) → numbered i ≡ numbered j → i ≡ j
unfolding numbered
numbered-injective i j h =
    let same : str (pos i) ≡ str (pos j) =
      unfold remove_prefix in ap (remove_prefix (codes "historySetting_")) h in
    let known : some (pos i) ≡ some (pos j) =
      sym (int-str (pos i)) ∙ ap int same ∙ int-str (pos j) in
    cc known

-- The list without the first occurrence of a text.
erase : Text → List Text → List Text
erase t [] = []
erase t (x ∷ xs) = if text_eq x t then xs else x ∷ erase t xs

count-erase :
    (t : Text) (xs : List Text) → contains xs t ≡ true → suc (count (erase t xs)) ≡ count xs
unfolding erase
count-erase t [] h = cc
count-erase t (x ∷ xs) h = ground (arith, count-erase t xs)

contains-erase :
    (t s : Text) (xs : List Text) → s ≢ t → contains xs s ≡ true → contains (erase t xs) s ≡ true
unfolding erase
contains-erase t s [] ne h = h
contains-erase t s (x ∷ xs) ne h =
    ground (arith, text_eq_iff x t, text_eq_iff x s, contains-erase t s xs ne)

-- The names with the numbers below a bound are all in a list.
AllTaken : ℕ → List Text → Type 0
AllTaken n xs = (k : ℕ) → k < n → contains xs (numbered k) ≡ true

-- Then the list is at least as long.
le-count : (n : ℕ) (xs : List Text) → AllTaken n xs → n ≤ count xs
unfolding AllTaken
le-count zero xs h = omega arith
le-count (suc n) xs h =
    let rest = le-count n (erase (numbered n) xs) (λ k lt.
      contains-erase (numbered n) (numbered k) xs
        (λ e. absurd (omega (arith, numbered-injective k n e))) (h k (omega arith))) in
    omega (arith, rest, count-erase (numbered n) xs (h n (omega arith)))

-- The counter when the last name was made.
abbrev before : ℕ → ℕ
before zero = zero
before (suc i) = i

-- The number in the name that the loop tests in front of its counter.
abbrev last : ℕ → Text
last zero = numbered 0
last (suc i) = numbered i

more-taken :
    (xs : List Text) (i : ℕ) → AllTaken (before i) xs → contains xs (last i) ≡ true → AllTaken i xs
unfolding AllTaken
more-taken xs zero h taken k lt = absurd (omega arith)
more-taken xs (suc i) h taken k lt = elim (Bool-cases (k == i)) [
  | inl here ↦ ap (λ n. contains xs (numbered n)) ((==_iff k i).0 here) ∙ taken
  | inr below ↦ h k (ground (arith, ==_iff k i))
]

too_many : (i : ℕ) (xs : List Text) → AllTaken (before i) xs → suc (count xs) < i → ⊥
too_many zero xs h lt = omega arith
too_many (suc i) xs h lt = omega (arith, le-count i xs h)

next_name_found :
    (fuel : ℕ) (xs : List Text) (i : ℕ)
    → AllTaken (before i) xs
    → suc (count xs) < fuel + i
    → (t : Text) × (next_name fuel xs (last i) i ≡ some t) × (contains xs t ≡ false)
unfolding next_name
next_name_found zero xs i h enough = absurd (too_many i xs h (omega arith))
next_name_found (suc fuel) xs i h enough = elim (Bool-cases (contains xs (last i))) [
  | inl taken ↦
      let next : next_name fuel xs (numbered i) (i + 1) ≡ next_name fuel xs (last (suc i)) (suc i) =
        rw add-one in
      let rest = next_name_found fuel xs (suc i) (more-taken xs i h taken) (omega arith) in
      (rest.0, rw taken (next ∙ rest.1), rest.2)
  | inr free ↦ (last i, rw free refl, free)
]

-- The search for a new name ends, for every list of names that are taken, and what it finds is not
-- taken.
pub new_name_found :
    (taken : List Text) → (t : Text) × (new_name taken ≡ some t) × (contains taken t ≡ false)
unfolding new_name AllTaken
new_name_found taken = elim (Bool-cases (contains taken (codes "historySetting"))) [
  | inl used ↦
      let rest =
        next_name_found (suc (suc (count taken))) taken 0 (λ k lt. absurd (omega arith))
          (omega arith) in
      (rest.0, rw used rest.1, rest.2)
  | inr free ↦ (codes "historySetting", rw free refl, free)
]
