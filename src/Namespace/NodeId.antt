-- ===== src/Namespace/NodeId.antt =====
-- `opcua_node_id_t`: reading an id from a text, and printing it.
pub mod Hex
pub mod RoundTrip
use control_system_adapter_o.Prelude.{
  ℕ, zero, suc, ◌==◌, Bool, true, false, Option, none, some, List, [], ◌∷◌, ◌++◌, if◌then◌else◌,
}
use control_system_adapter_o.Prelude.Text.{Text, codes, text_eq}
use control_system_adapter_o.Prelude.Number.{ℤ, pos, int, str, nonzero}
use control_system_adapter_o.Prelude.Result.{Result, ok, err, value_error, ◌>>=◌}
use control_system_adapter_o.Namespace.NodeId.Hex.{hex, int_hex}

pub record NodeId : Type 0 where
  pub i : Option ℤ
  pub b : Option Text
  pub g : Option (List ℕ)
  pub s : Option Text
  pub ns : ℤ

abbrev pub add_front : ℕ → List Text → List Text
add_front c [] = (c ∷ []) ∷ []
add_front c (t ∷ ts) = (c ∷ t) ∷ ts

-- `t.split(c)`
unfoldable pub split : ℕ → Text → List Text
split c [] = [] ∷ []
split c (x ∷ t) = let rest = split c t in if x == c then [] ∷ rest else add_front x rest

abbrev pub first_two : Text → Text
first_two [] = []
first_two (c ∷ []) = c ∷ []
first_two (c ∷ d ∷ t) = c ∷ d ∷ []

abbrev pub from : ℕ → Text → Text
from zero t = t
from (suc n) [] = []
from (suc n) (_ ∷ t) = from n t

abbrev pub or_value_error {ℓ} : {A : Type ℓ} → Option A → Result A
or_value_error none = err value_error
or_value_error (some a) = ok a

-- The loop over the parts of a GUID
unfoldable pub read_hex : List Text → Result (List ℕ)
unfolding int_hex
read_hex [] = ok []
read_hex (t ∷ ts) = or_value_error (int_hex t) >>= λ n. read_hex ts >>= λ ns. ok (n ∷ ns)

-- One part of the text: the attribute that it sets
unfoldable pub read_part : Text → NodeId → Result NodeId
unfolding text_eq int read_hex split
read_part p id =
    if text_eq (first_two p) (codes "ns")
    then or_value_error (int (from 3 p)) >>= (λ z. ok (record id { ns = z }))
    else if text_eq (first_two p) (codes "i=")
    then or_value_error (int (from 2 p)) >>= (λ z. ok (record id { i = some z }))
    else if text_eq (first_two p) (codes "o=")
    then ok (record id { b = some (from 2 p) })
    else if text_eq (first_two p) (codes "g=")
    then read_hex (split b'-' (from 2 p)) >>= (λ ns. ok (record id { g = some ns }))
    else if text_eq (first_two p) (codes "s=")
    then ok (record id { s = some (from 2 p) })
    else ok id

unfoldable pub read_id_parts : List Text → NodeId → Result NodeId
unfolding read_part
read_id_parts [] id = ok id
read_id_parts (p ∷ ps) id = read_part p id >>= read_id_parts ps

abbrev pub empty_id : NodeId
empty_id = record { i = none; b = none; g = none; s = none; ns = pos 0 }

-- `opcua_node_id_t(idstring)`
unfoldable pub new_node_id : Text → Result NodeId
unfolding split read_id_parts
new_node_id t = read_id_parts (split b';' t) empty_id

-- The parts of a GUID, with "-" between them: it is put in front of each, and taken away behind "g=".
unfoldable pub dashed : List ℕ → Text
unfolding hex
dashed [] = []
dashed (n ∷ []) = hex n
dashed (n ∷ m ∷ ns) = hex n ++ (b'-' ∷ dashed (m ∷ ns))

abbrev pub namespace_part : ℤ → Text
namespace_part ns = if nonzero ns then codes "ns=" ++ (str ns ++ (b';' ∷ [])) else []

-- "Order of preference is numeric, guid, bytestring, string"
abbrev pub string_part : Option Text → Text
string_part none = []
string_part (some t) = codes "s=" ++ t

abbrev pub bytestring_part : Option Text → Option Text → Text
bytestring_part none s = string_part s
bytestring_part (some t) s = codes "b=" ++ t

abbrev pub guid_part : Option (List ℕ) → Option Text → Option Text → Text
guid_part none b s = bytestring_part b s
guid_part (some ns) b s = codes "g=" ++ dashed ns

abbrev pub numeric_part : Option ℤ → Option (List ℕ) → Option Text → Option Text → Text
numeric_part none g b s = guid_part g b s
numeric_part (some z) g b s = codes "i=" ++ str z

-- `str(id)`, the text that `toString` leaves
unfoldable pub node_id_text : NodeId → Text
unfolding str dashed
node_id_text id = namespace_part id.ns ++ numeric_part id.i id.g id.b id.s
