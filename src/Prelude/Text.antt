-- ===== src/Prelude/Text.antt =====
-- Python's `str` as the list of its code points, and the methods of `str` that the program calls.
use Prim.Native.Nat.{ℕ, zero, suc, ◌+◌, ◌-◌}
use Prim.Native.Char.{code}
use Prim.Native.String.{String}
use mathlib.Core.Path.{◌≡◌, refl}
use mathlib.Core.Logic.{◌↔◌}
use mathlib.Core.Bool.{Bool, true, false, ◌&&◌, ◌||◌}
use mathlib.Core.Option.{Option, none, some}
use mathlib.Core.List.{List, [], ◌∷◌, ◌++◌, map, reverse, reverse-append, reverse-reverse}
use native.Mathlib.Omega.{arith}
use control_system_adapter_o.Prelude.Tests.{leb, ◌==◌, if◌then◌else◌}

abbrev pub Text : Type 0
Text = List ℕ

-- The text of a literal.
abbrev pub codes : String → Text
codes String.[] = []
codes (String.◌∷◌ c s) = code c ∷ codes s

-- `s == t`
unfoldable pub text_eq : Text → Text → Bool
text_eq [] [] = true
text_eq (x ∷ xs) (y ∷ ys) = (x == y) && text_eq xs ys
text_eq _ _ = false

-- `o == t` for an `o` that may be `None`
unfoldable pub opt_eq : Option Text → Option Text → Bool
unfolding text_eq
opt_eq none none = true
opt_eq (some s) (some t) = text_eq s t
opt_eq _ _ = false

pub text_eq_iff : (s t : Text) → (text_eq s t ≡ true) ↔ (s ≡ t)
unfolding text_eq
text_eq_iff [] [] = (λ _. refl, λ _. refl)
text_eq_iff [] (y ∷ ys) = ground arith
text_eq_iff (x ∷ xs) [] = ground arith
text_eq_iff (x ∷ xs) (y ∷ ys) = ground (arith, text_eq_iff xs ys)

pub text_eq_refl : (s : Text) → text_eq s s ≡ true
text_eq_refl s = (text_eq_iff s s).1 refl

-- Truth of a text that may be `None`: `None` and the empty text are false.
abbrev pub given : Option Text → Bool
given none = false
given (some []) = false
given (some (_ ∷ _)) = true

abbrev pub text_of : Option Text → Text
text_of none = []
text_of (some t) = t

-- The rest of the text behind a prefix that it has.
pub after : Text → Text → Option Text
after [] t = some t
after (p ∷ ps) [] = none
after (p ∷ ps) (c ∷ cs) = let rest = after ps cs in if p == c then rest else none

or_whole : Text → Option Text → Text
or_whole t none = t
or_whole t (some rest) = rest

-- `t.removeprefix(p)`
unfoldable pub remove_prefix : Text → Text → Text
unfolding after or_whole
remove_prefix p t = or_whole t (after p t)

-- `t.removesuffix(s)`
unfoldable pub remove_suffix : Text → Text → Text
unfolding remove_prefix
remove_suffix s t = reverse (remove_prefix (reverse s) (reverse t))

is_some : Option Text → Bool
is_some none = false
is_some (some _) = true

-- `t.endswith(s)`
unfoldable pub ends_with : Text → Text → Bool
unfolding after is_some
ends_with s t = is_some (after (reverse s) (reverse t))

drop : ℕ → Text → Text
drop zero t = t
drop (suc n) [] = []
drop (suc n) (_ ∷ t) = drop n t

-- `t[0:-n]`
unfoldable pub drop_last : ℕ → Text → Text
unfolding drop
drop_last n t = reverse (drop n (reverse t))

drop_while : (ℕ → Bool) → Text → Text
drop_while p [] = []
drop_while p (c ∷ t) = let rest = drop_while p t in if p c then rest else c ∷ t

-- `t.strip(…)`, for the set of characters that pass the test
unfoldable pub strip : (ℕ → Bool) → Text → Text
unfolding drop_while
strip p t = reverse (drop_while p (reverse (drop_while p t)))

take_until : ℕ → Text → Text
take_until c [] = []
take_until c (x ∷ t) = let rest = take_until c t in if x == c then [] else x ∷ rest

-- `t.split(c)[1]`; `none` is the `IndexError`
unfoldable pub split_second : ℕ → Text → Option Text
unfolding take_until
split_second c [] = none
split_second c (x ∷ t) =
    let rest = split_second c t in if x == c then some (take_until c t) else rest

-- `t.upper()` of ASCII text. Other letters are left alone.
unfoldable pub upper : Text → Text
upper = map (λ c. if leb b'a' c && leb c b'z' then c - 32 else c)

-- `t.lower()`, likewise
unfoldable pub lower : Text → Text
lower = map (λ c. if leb b'A' c && leb c b'Z' then c + 32 else c)

-- `part in text`
starts : Text → Text → Bool
starts [] t = true
starts (p ∷ ps) [] = false
starts (p ∷ ps) (c ∷ cs) =
    let rest = starts ps cs in if text_eq (p ∷ []) (c ∷ []) then rest else false

unfoldable pub is_in : Text → Text → Bool
unfolding starts text_eq
is_in part [] = starts part []
is_in part (c ∷ t) = starts part (c ∷ t) || is_in part t

-- Every character passes a test.
abbrev pub All : (ℕ → Bool) → Text → Type 0
All p [] = Unit
All p (c ∷ t) = (p c ≡ true) × All p t

pub All-append : (p : ℕ → Bool) (s t : Text) → All p s → All p t → All p (s ++ t)
All-append p [] t h k = k
All-append p (c ∷ s) t h k = (h.0, All-append p s t h.1 k)

pub All-reverse : (p : ℕ → Bool) (s : Text) → All p s → All p (reverse s)
All-reverse p [] h = tt
All-reverse p (c ∷ s) h =
    rw (reverse-append (c ∷ []) s)
      (All-append p (reverse s) (c ∷ []) (All-reverse p s h.1) (h.0, tt))

after-append : (p t : Text) → after p (p ++ t) ≡ some t
unfolding after
after-append [] t = refl
after-append (c ∷ p) t = ground (arith, after-append p t)

pub remove_prefix-append : (p t : Text) → remove_prefix p (p ++ t) ≡ t
unfolding remove_prefix
remove_prefix-append p t = rw (after-append p t)

pub remove_suffix-append : (t s : Text) → remove_suffix s (t ++ s) ≡ t
unfolding remove_suffix
remove_suffix-append t s =
    rw (reverse-append t s, after-append (reverse s) (reverse t)) (reverse-reverse t)

drop_while_keep :
    (p keep : ℕ → Bool)
    → ((c : ℕ) → keep c ≡ true → p c ≡ false)
    → (t : Text) → All keep t
    → drop_while p t ≡ t
unfolding drop_while
drop_while_keep p keep h [] a = refl
drop_while_keep p keep h (c ∷ t) a = rw (h c a.0)

-- A text with none of the characters is left alone.
pub strip_keep :
    (p keep : ℕ → Bool)
    → ((c : ℕ) → keep c ≡ true → p c ≡ false)
    → (t : Text) → All keep t
    → strip p t ≡ t
unfolding strip
strip_keep p keep h t a =
    rw (drop_while_keep p keep h t a, drop_while_keep p keep h (reverse t) (All-reverse keep t a))
      (reverse-reverse t)

-- `o is None`
abbrev pub is_none : Option Text → Bool
is_none none = true
is_none (some _) = false

-- What is left of a value that is written only if it is given.
abbrev pub kept : Option Text → Option Text
kept o = if given o then some (text_of o) else none
