-- ===== src/Etree/Build.antt =====
-- Setting an attribute and adding a child under a condition, with what can be read back.
use text.Mathlib.Text.{◌==◌ as str_eq}
use control_system_adapter_o.Prelude.{
  String, ◌≡◌, refl, Bool, true, false, Option, none, some, List, [], ◌∷◌, ◌++◌, arith,
  if◌then◌else◌,
}
use control_system_adapter_o.Prelude.Text.{Text, codes, text_eq, given, text_of}
use control_system_adapter_o.Etree.{Etree, Nsmap, has_default, first}
use mathlib.Core.List.{append-nil}

pub if-nil {ℓ} : {A : Type ℓ} (b : Bool) → ◌≡◌ {A = List A} (if b then [] else []) []
if-nil true = refl
if-nil false = refl

pub first-if {ℓ} :
    {A : Type ℓ} (b : Bool) (x : A)
    → first (if b then x ∷ [] else []) ≡ (if b then some x else none)
first-if true x = refl
first-if false x = refl

module _ (L : Etree) where
  -- `if b: e.set(key, value)`
  unfoldable pub set_if : Bool → L.Element → String → Text → L.Element
  set_if b e k v = if b then L.set e k v else e

  -- `if value: e.set(key, value)`
  unfoldable pub set_given : L.Element → String → Option Text → L.Element
  unfolding set_if
  set_given e k o = set_if (given o) e k (text_of o)

  -- A child that is made only under a condition.
  unfoldable pub append_if : Bool → L.Element → L.Element → L.Element
  append_if b e c = if b then L.append e c else e

  pub tag-set_if :
      (b : Bool) (e : L.Element) (k : String) (v : Text) → L.tag (set_if b e k v) ≡ L.tag e
  unfolding set_if
  tag-set_if true e k v = L.tag-set e k v
  tag-set_if false e k v = refl

  pub tag-append_if : (b : Bool) (e c : L.Element) → L.tag (append_if b e c) ≡ L.tag e
  unfolding append_if
  tag-append_if true e c = L.tag-append e c
  tag-append_if false e c = refl

  pub nsmap-set_if :
      (b : Bool) (e : L.Element) (k : String) (v : Text) → L.nsmap (set_if b e k v) ≡ L.nsmap e
  unfolding set_if
  nsmap-set_if true e k v = L.nsmap-set e k v
  nsmap-set_if false e k v = refl

  pub nsmap-append_if : (b : Bool) (e c : L.Element) → L.nsmap (append_if b e c) ≡ L.nsmap e
  unfolding append_if
  nsmap-append_if true e c = L.nsmap-append e c
  nsmap-append_if false e c = refl

  pub attrib-set_if :
      (b : Bool) (e : L.Element) (k : String) (v : Text) (j : String)
      → L.attrib (set_if b e k v) j
        ≡ (if str_eq k j then (if b then some v else L.attrib e j) else L.attrib e j)
  unfolding set_if
  attrib-set_if true e k v j = L.attrib-set e k v j
  attrib-set_if false e k v j = ground arith

  pub attrib-append_if :
      (b : Bool) (e c : L.Element) (k : String) → L.attrib (append_if b e c) k ≡ L.attrib e k
  unfolding append_if
  attrib-append_if true e c k = L.attrib-append e c k
  attrib-append_if false e c k = refl

  pub findall-set_if :
      (b : Bool) (e : L.Element) (k : String) (v : Text) (s : String) (n : Nsmap)
      → L.findall (set_if b e k v) s n ≡ L.findall e s n
  unfolding set_if
  findall-set_if true e k v s n = L.findall-set e k v s n
  findall-set_if false e k v s n = refl

  pub findall-append_if :
      (b : Bool) (e c : L.Element) (s : String) (n : Nsmap)
      → has_default n ≡ false
      → L.findall (append_if b e c) s n
        ≡ L.findall e s n
          ++ (if text_eq (L.tag c) (codes s) then (if b then c ∷ [] else []) else [])
  unfolding append_if
  findall-append_if true e c s n h = L.findall-append e c s n h
  findall-append_if false e c s n h = rw (if-nil (text_eq (L.tag c) (codes s)), append-nil) refl

module _ (L : Etree) where
  pub findall-append_none :
      (e c : L.Element) (s : String)
      → L.findall (L.append e c) s []
        ≡ L.findall e s [] ++ (if text_eq (L.tag c) (codes s) then c ∷ [] else [])
  findall-append_none e c s = L.findall-append e c s [] refl

  pub findall-append_if_none :
      (b : Bool) (e c : L.Element) (s : String)
      → L.findall (append_if L b e c) s []
        ≡ L.findall e s []
          ++ (if text_eq (L.tag c) (codes s) then (if b then c ∷ [] else []) else [])
  findall-append_if_none b e c s = findall-append_if L b e c s [] refl

pub ruleset build_laws = (
  tag-set_if, tag-append_if, attrib-set_if, attrib-append_if, findall-set_if, findall-append_none,
  findall-append_if_none,
)
