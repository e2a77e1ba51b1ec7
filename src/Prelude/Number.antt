-- ===== src/Prelude/Number.antt =====
-- Python's `int`, with `str(n)` and `int(text)`.
-- Left out of `int(text)`: decimal digits of other scripts, and the limit on very long literals.
use Prim.Native.Nat.{ℕ, zero, suc, ◌+◌, ◌-◌, ◌*◌, ◌/◌, ◌%◌, ◌<◌}
use mathlib.Core.Path.{◌≡◌, refl}
use mathlib.Core.Bool.{Bool, true, false, ◌&&◌, ◌||◌}
use mathlib.Core.Option
use mathlib.Core.Option.{Option, none, some}
use mathlib.Core.List.{[], ◌∷◌}
use native.Mathlib.Omega.{arith}
use control_system_adapter_o.Prelude.Tests.{ltb, leb, ◌==◌, if◌then◌else◌}
use control_system_adapter_o.Prelude.Text.{Text, strip, All, strip_keep}

-- `negsuc n` is -(n + 1).
pub data ℤ : Type 0 where
  pos : ℕ → ℤ
  negsuc : ℕ → ℤ

-- Truth of a number.
abbrev pub nonzero : ℤ → Bool
nonzero (pos zero) = false
nonzero (pos (suc _)) = true
nonzero (negsuc _) = true

emit : ℕ → ℕ → Text → Text
emit zero n out = out
emit (suc f) n out =
    let d = (b'0' + n % 10) ∷ out in let rest = emit f (n / 10) d in if ltb n 10 then d else rest

-- `str(n)`; the fuel n + 1 is more than the number of digits.
unfoldable pub str : ℤ → Text
unfolding emit
str (pos n) = emit (suc n) n []
str (negsuc n) = b'-' ∷ emit (suc (suc n)) (suc n) []

is_digit : ℕ → Bool
is_digit c = leb b'0' c && leb c b'9'

unfoldable pub is_space : ℕ → Bool
is_space c =
    (leb 9 c && leb c 13)
    || (leb 28 c && leb c 32)
    || c == 0x85
    || c == 0xa0
    || c == 0x1680
    || (leb 0x2000 c && leb c 0x200a)
    || c == 0x2028
    || c == 0x2029
    || c == 0x202f
    || c == 0x205f
    || c == 0x3000

-- Digits, with single underscores between them. `last` says whether a digit stands in front.
scan : Bool → Text → ℕ → Option ℕ
scan last [] n = if last then some n else none
scan last (c ∷ t) n =
    let rest = scan (is_digit c) t (if is_digit c then n * 10 + (c - b'0') else n) in
    if is_digit c || (c == b'_' && last) then rest else none

negate : ℕ → ℤ
negate zero = pos zero
negate (suc n) = negsuc n

signed : Text → Option ℤ
signed [] = none
signed (c ∷ t) =
    if c == b'-'
    then Option.map negate (scan false t 0)
    else if c == b'+'
    then Option.map pos (scan false t 0)
    else Option.map pos (scan false (c ∷ t) 0)

-- `int(text)`; `none` is the `ValueError`.
unfoldable pub int : Text → Option ℤ
unfolding scan signed negate is_digit is_space strip
int t = signed (strip is_space t)

scan-emit :
    (f n : ℕ) (out : Text) (last : Bool) → n < f → scan last (emit f n out) 0 ≡ scan true out n
unfolding emit scan is_digit
scan-emit zero n out last h = absurd (omega arith)
scan-emit (suc f) n out last h = ground (arith, scan-emit f (n / 10) ((b'0' + n % 10) ∷ out) last)

emit-All : (f n : ℕ) (out : Text) → All is_digit out → All is_digit (emit f n out)
unfolding emit is_digit
emit-All zero n out h = h
emit-All (suc f) n out h = ground (arith, emit-All f (n / 10) ((b'0' + n % 10) ∷ out))

is_sign_or_digit : ℕ → Bool
is_sign_or_digit c = is_digit c || c == b'-'

sign_or_digit-not_space : (c : ℕ) → is_sign_or_digit c ≡ true → is_space c ≡ false
unfolding is_sign_or_digit is_digit is_space
sign_or_digit-not_space c h = ground arith

sign_or_digit : (t : Text) → All is_digit t → All is_sign_or_digit t
unfolding is_sign_or_digit
sign_or_digit [] h = tt
sign_or_digit (c ∷ t) h = (rw h.0, sign_or_digit t h.1)

str-All : (z : ℤ) → All is_sign_or_digit (str z)
unfolding str is_sign_or_digit
str-All (pos n) = sign_or_digit (emit (suc n) n []) (emit-All (suc n) n [] tt)
str-All (negsuc n) = (
  ground arith,
  sign_or_digit (emit (suc (suc n)) (suc n) []) (emit-All (suc (suc n)) (suc n) [] tt),
)

signed-digits : (t : Text) → All is_digit t → signed t ≡ Option.map pos (scan false t 0)
unfolding signed is_digit scan
signed-digits [] h = refl
signed-digits (c ∷ t) h = ground arith

signed-str : (z : ℤ) → signed (str z) ≡ some z
unfolding str signed negate scan
signed-str (pos n) =
    rw
      (
        signed-digits (emit (suc n) n []) (emit-All (suc n) n [] tt),
        scan-emit (suc n) n [] false (omega arith),
      )
      refl
signed-str (negsuc n) = rw (scan-emit (suc (suc n)) (suc n) [] false (omega arith)) refl

-- Reading a printed number gives the number back.
pub int-str : (z : ℤ) → int (str z) ≡ some z
unfolding int
int-str z =
    rw (strip_keep is_space is_sign_or_digit sign_or_digit-not_space (str z) (str-All z))
      (signed-str z)

abbrev pub is_decimal : ℕ → Bool
is_decimal c = (leb b'0' c && leb c b'9') || c == b'-'

decimal-All : (t : Text) → All is_sign_or_digit t → All is_decimal t
unfolding is_sign_or_digit is_digit
decimal-All [] h = tt
decimal-All (c ∷ t) h = (h.0, decimal-All t h.1)

-- A printed number is of digits and its sign.
pub str-is_decimal : (z : ℤ) → All is_decimal (str z)
str-is_decimal z = decimal-All (str z) (str-All z)
