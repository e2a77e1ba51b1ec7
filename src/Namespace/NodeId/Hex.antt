-- ===== src/Namespace/NodeId/Hex.antt =====
-- `hex` and `int(text, 16)`, as the parts of a GUID use them. Digits of other scripts are left out.
use control_system_adapter_o.Prelude.{
  ℕ, zero, suc, ◌+◌, ◌-◌, ◌*◌, ◌/◌, ◌%◌, ◌<◌, ◌==◌, ◌&&◌, ◌||◌, ◌≡◌, refl, Bool, true, false,
  Option, none, some, [], ◌∷◌, if◌then◌else◌, ltb, leb, arith, Bool-cases, inl, inr,
}
use control_system_adapter_o.Prelude.Text.{Text, strip, All, strip_keep}
use control_system_adapter_o.Prelude.Number.{is_space}

hex_char : ℕ → ℕ
hex_char d = if ltb d 10 then b'0' + d else b'a' + (d - 10)

emit_hex : ℕ → ℕ → Text → Text
unfolding hex_char
emit_hex zero n out = out
emit_hex (suc f) n out =
    let d = hex_char (n % 16) ∷ out in
    let rest = emit_hex f (n / 16) d in if ltb n 16 then d else rest

-- `hex(n).replace("0x", "")`; the fuel n + 1 is more than the number of digits.
unfoldable pub hex : ℕ → Text
unfolding emit_hex
hex n = emit_hex (suc n) n []

hex_value : ℕ → Option ℕ
hex_value c =
    if leb b'0' c && leb c b'9'
    then some (c - b'0')
    else if leb b'a' c && leb c b'f'
    then some (c - b'a' + 10)
    else if leb b'A' c && leb c b'F'
    then some (c - b'A' + 10)
    else none

-- Digits behind "0x", with single underscores between them and in front
scan_hex : Bool → Text → ℕ → Option ℕ
unfolding hex_value
scan_hex last [] n = if last then some n else none
scan_hex last (c ∷ t) n = elim (hex_value c) [
  | none ↦ let rest = scan_hex false t n in if c == b'_' && last then rest else none
  | some d ↦ scan_hex true t (n * 16 + d)
]

digits_behind : Text → Option ℕ
unfolding scan_hex
digits_behind [] = none
digits_behind (c ∷ t) = scan_hex true (c ∷ t) 0

-- `int("0x" + t, 16)`: space is stripped at the end only, since the prefix stands in front.
unfoldable pub int_hex : Text → Option ℕ
unfolding digits_behind is_space strip
int_hex t = elim (strip is_space (b'0' ∷ b'x' ∷ t)) [
  | b0 ∷ x ∷ rest ↦ digits_behind rest
  | _ ↦ none
]

abbrev pub is_hex : ℕ → Bool
is_hex c = (leb b'0' c && leb c b'9') || (leb b'a' c && leb c b'f')

hex_value-char : (d : ℕ) → d < 16 → hex_value (hex_char d) ≡ some d
unfolding hex_value hex_char
hex_value-char d h = ground arith

hex_char-is_hex : (d : ℕ) → d < 16 → is_hex (hex_char d) ≡ true
unfolding hex_char
hex_char-is_hex d h = ground arith

scan-digit :
    (d m : ℕ) (out : Text) (last : Bool)
    → d < 16
    → scan_hex last (hex_char d ∷ out) m ≡ scan_hex true out (m * 16 + d)
unfolding scan_hex
scan-digit d m out last h = rw (scan_hex, hex_value-char d h) refl

scan-emit_hex :
    (f n : ℕ) (out : Text) → n < f → scan_hex true (emit_hex f n out) 0 ≡ scan_hex true out n
unfolding emit_hex
scan-emit_hex zero n out h = absurd (omega arith)
scan-emit_hex (suc f) n out h = elim (Bool-cases (ltb n 16)) [
  | inl small ↦
      let same : 0 * 16 + n % 16 ≡ n = ground arith in
      rw (small, scan-digit (n % 16) 0 out true (omega arith), same) refl
  | inr large ↦
      let whole : n / 16 * 16 + n % 16 ≡ n = omega arith in
      rw
        (
          large,
          scan-emit_hex f (n / 16) (hex_char (n % 16) ∷ out) (ground arith),
          scan-digit (n % 16) (n / 16) out true (omega arith),
          whole,
        )
        refl
]

emit_hex-All : (f n : ℕ) (out : Text) → All is_hex out → All is_hex (emit_hex f n out)
unfolding emit_hex
emit_hex-All zero n out h = h
emit_hex-All (suc f) n out h = elim (Bool-cases (ltb n 16)) [
  | inl small ↦ rw small (hex_char-is_hex (n % 16) (omega arith), h)
  | inr large ↦ rw large (
      emit_hex-All f (n / 16) (hex_char (n % 16) ∷ out) (hex_char-is_hex (n % 16) (omega arith), h))
]

pub hex-All : (n : ℕ) → All is_hex (hex n)
unfolding hex
hex-All n = emit_hex-All (suc n) n [] tt

abbrev prefixed : ℕ → Bool
prefixed c = is_hex c || c == b'x'

prefixed-not_space : (c : ℕ) → prefixed c ≡ true → is_space c ≡ false
unfolding is_space
prefixed-not_space c h = ground arith

hex-prefixed : (t : Text) → All is_hex t → All prefixed t
hex-prefixed [] h = tt
hex-prefixed (c ∷ t) h = (rw h.0 refl, hex-prefixed t h.1)

emit_hex-given : (f n c : ℕ) (out : Text) → (d : ℕ) × (t : Text) × (emit_hex f n (c ∷ out) ≡ d ∷ t)
unfolding emit_hex
emit_hex-given zero n c out = (c, out, refl)
emit_hex-given (suc f) n c out = elim (Bool-cases (ltb n 16)) [
  | inl small ↦ (hex_char (n % 16), c ∷ out, rw small refl)
  | inr large ↦
      let rest = emit_hex-given f (n / 16) (hex_char (n % 16)) (c ∷ out) in
      (rest.0, rest.1, rw (large, rest.2) refl)
]

hex-given : (n : ℕ) → (d : ℕ) × (t : Text) × (hex n ≡ d ∷ t)
unfolding hex emit_hex
hex-given n = elim (Bool-cases (ltb n 16)) [
  | inl small ↦ (hex_char (n % 16), [], rw small refl)
  | inr large ↦
      let rest = emit_hex-given n (n / 16) (hex_char (n % 16)) [] in
      (rest.0, rest.1, rw (large, rest.2) refl)
]

scanned_hex : (n : ℕ) → scan_hex true (hex n) 0 ≡ some n
unfolding hex scan_hex
scanned_hex n = scan-emit_hex (suc n) n [] (omega arith)

digits_behind-hex : (n : ℕ) → digits_behind (hex n) ≡ some n
unfolding digits_behind
digits_behind-hex n =
    let shape = hex-given n in
    let scanned : scan_hex true (hex n) 0 ≡ some n = scanned_hex n in
    rw shape.2 (rw shape.2 at scanned)

-- A part of a GUID that was printed is read.
pub int_hex-hex : (n : ℕ) → int_hex (hex n) ≡ some n
unfolding int_hex
int_hex-hex n =
    rw
      (
        int_hex,
        strip_keep is_space prefixed prefixed-not_space (b'0' ∷ b'x' ∷ hex n)
            (refl, (refl, hex-prefixed (hex n) (hex-All n))),
      )
      (digits_behind-hex n)
