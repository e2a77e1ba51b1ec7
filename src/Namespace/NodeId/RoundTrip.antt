-- ===== src/Namespace/NodeId/RoundTrip.antt =====
-- An id that is printed is read back.
use control_system_adapter_o.Prelude.{
  ℕ, zero, suc, ◌==◌, not, ◌≡◌, refl, ap, Bool, true, false, none, some, List, [], ◌∷◌, ◌++◌, arith,
  Bool-cases, inl, inr,
}
use control_system_adapter_o.Prelude.Text.{Text, codes, text_eq, All, All-append}
use control_system_adapter_o.Prelude.Number.{
  ℤ, pos, negsuc, str, nonzero, int-str, is_decimal, str-is_decimal,
}
use control_system_adapter_o.Prelude.Result.{ok}
use control_system_adapter_o.Namespace.NodeId.Hex.{hex, int_hex-hex, hex-All, is_hex}
use control_system_adapter_o.Namespace.NodeId.{
  NodeId, split, read_hex, read_part, read_id_parts, empty_id, new_node_id, dashed, namespace_part,
  node_id_text,
}

abbrev pub other_than : ℕ → ℕ → Bool
other_than c x = not (x == c)

split-without : (c : ℕ) (t : Text) → All (other_than c) t → split c t ≡ t ∷ []
unfolding split
split-without c [] h = refl
split-without c (x ∷ t) h =
    let apart : (x == c) ≡ false = ground arith in rw (split, apart, split-without c t h.1) refl

split-at : (c : ℕ) (t u : Text) → All (other_than c) t → split c (t ++ (c ∷ u)) ≡ t ∷ split c u
unfolding split
split-at c [] u h = let same : (c == c) ≡ true = ground arith in rw (split, same) refl
split-at c (x ∷ t) u h =
    let apart : (x == c) ≡ false = ground arith in rw (split, apart, split-at c t u h.1) refl

hex-no_dash : (t : Text) → All is_hex t → All (other_than b'-') t
hex-no_dash [] h = tt
hex-no_dash (c ∷ t) h = (ground arith, hex-no_dash t h.1)

hex-no_semicolon : (t : Text) → All is_hex t → All (other_than b';') t
hex-no_semicolon [] h = tt
hex-no_semicolon (c ∷ t) h = (ground arith, hex-no_semicolon t h.1)

read_hex-dashed : (n : ℕ) (ns : List ℕ) → read_hex (split b'-' (dashed (n ∷ ns))) ≡ ok (n ∷ ns)
unfolding read_hex dashed
read_hex-dashed n [] =
    rw (split-without b'-' (hex n) (hex-no_dash (hex n) (hex-All n)), read_hex, int_hex-hex n) refl
read_hex-dashed n (m ∷ ns) =
    rw
      (
        split-at b'-' (hex n) (dashed (m ∷ ns)) (hex-no_dash (hex n) (hex-All n)),
        read_hex,
        int_hex-hex n,
        read_hex-dashed m ns,
      )
      refl

decimal-no_semicolon : (t : Text) → All is_decimal t → All (other_than b';') t
decimal-no_semicolon [] h = tt
decimal-no_semicolon (c ∷ t) h = (ground arith, decimal-no_semicolon t h.1)

dashed-no_semicolon : (ns : List ℕ) → All (other_than b';') (dashed ns)
unfolding dashed
dashed-no_semicolon [] = tt
dashed-no_semicolon (n ∷ []) = hex-no_semicolon (hex n) (hex-All n)
dashed-no_semicolon (n ∷ m ∷ ns) =
    All-append (other_than b';') (hex n) (b'-' ∷ dashed (m ∷ ns))
      (hex-no_semicolon (hex n) (hex-All n)) (refl, dashed-no_semicolon (m ∷ ns))

-- The ids of one kind that are printed as they are read
pub data Identifier : Type 0 where
  numeric : ℤ → Identifier
  guid : ℕ → List ℕ → Identifier
  string : Text → Identifier

abbrev pub id_of : ℤ → Identifier → NodeId
id_of ns (numeric z) = record { i = some z; b = none; g = none; s = none; ns = ns }
id_of ns (guid n ms) = record { i = none; b = none; g = some (n ∷ ms); s = none; ns = ns }
id_of ns (string t) = record { i = none; b = none; g = none; s = some t; ns = ns }

abbrev pub IsPlain : Identifier → Type 0
IsPlain (numeric z) = Unit {0}
IsPlain (guid n ms) = Unit {0}
IsPlain (string t) = All (other_than b';') t

abbrev kind_text : Identifier → Text
kind_text (numeric z) = codes "i=" ++ str z
kind_text (guid n ms) = codes "g=" ++ dashed (n ∷ ms)
kind_text (string t) = codes "s=" ++ t

kind_text-no_semicolon : (k : Identifier) → IsPlain k → All (other_than b';') (kind_text k)
kind_text-no_semicolon (numeric z) h =
    (refl, (refl, decimal-no_semicolon (str z) (str-is_decimal z)))
kind_text-no_semicolon (guid n ms) h = (refl, (refl, dashed-no_semicolon (n ∷ ms)))
kind_text-no_semicolon (string t) h = (refl, (refl, h))

abbrev in_namespace : ℤ → NodeId
in_namespace ns = record { i = none; b = none; g = none; s = none; ns = ns }

read_kind :
    (ns : ℤ) (k : Identifier) → read_id_parts (kind_text k ∷ []) (in_namespace ns) ≡ ok (id_of ns k)
unfolding read_id_parts read_part text_eq
read_kind ns (numeric z) = rw (int-str z) refl
read_kind ns (guid n ms) = rw (read_hex-dashed n ms) refl
read_kind ns (string t) = refl

text-is : (ns : ℤ) (k : Identifier) → node_id_text (id_of ns k) ≡ namespace_part ns ++ kind_text k
unfolding node_id_text
text-is ns (numeric z) = refl
text-is ns (guid n ms) = refl
text-is ns (string t) = refl

append-one : (c : ℕ) (t u : Text) → (t ++ (c ∷ [])) ++ u ≡ t ++ (c ∷ u)
append-one c [] u = refl
append-one c (x ∷ t) u = ap (λ l. x ∷ l) (append-one c t u)

read_namespace :
    (ns : ℤ) (ps : List Text)
    → read_id_parts ((codes "ns=" ++ str ns) ∷ ps) empty_id ≡ read_id_parts ps (in_namespace ns)
unfolding read_id_parts read_part text_eq
read_namespace ns ps = rw (int-str ns) refl

read_prefixed :
    (ns : ℤ) (k : Identifier)
    → IsPlain k
    → nonzero ns ≡ true
    → new_node_id (namespace_part ns ++ kind_text k) ≡ ok (id_of ns k)
unfolding new_node_id
read_prefixed ns k h e =
    rw
      (
        e,
        append-one b';' (str ns) (kind_text k),
        split-at b';' (codes "ns=" ++ str ns) (kind_text k)
            (refl, (refl, (refl, decimal-no_semicolon (str ns) (str-is_decimal ns)))),
        split-without b';' (kind_text k) (kind_text-no_semicolon k h),
        read_namespace ns (kind_text k ∷ []),
      )
      (read_kind ns k)

read_bare :
    (ns : ℤ) (k : Identifier)
    → IsPlain k
    → nonzero ns ≡ false
    → new_node_id (namespace_part ns ++ kind_text k) ≡ ok (id_of ns k)
unfolding new_node_id
read_bare (pos zero) k h e =
    rw (split-without b';' (kind_text k) (kind_text-no_semicolon k h)) (read_kind (pos 0) k)
read_bare (pos (suc n)) k h e = ground arith
read_bare (negsuc n) k h e = ground arith

-- A numeric id, a GUID and a string id without a semicolon, in any namespace, come back when their
-- text is read.
pub new_node_id-node_id_text :
    (ns : ℤ) (k : Identifier)
    → IsPlain k
    → new_node_id (node_id_text (id_of ns k)) ≡ ok (id_of ns k)
new_node_id-node_id_text ns k h = elim (Bool-cases (nonzero ns)) [
  | inl e ↦ rw (text-is ns k) (read_prefixed ns k h e)
  | inr e ↦ rw (text-is ns k) (read_bare ns k h e)
]
