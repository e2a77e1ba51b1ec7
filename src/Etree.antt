-- ===== src/Etree.antt =====
-- What the map file generator uses of `lxml.etree`, which is not part of the repository: a record of
-- operations, and the documented behaviour of elements that the generator builds by itself.
-- Elements are values here. `SubElement` and the later changes of the new child become a fresh child
-- (`sub_element`), the changes, and `append` of the finished child to its parent.
pub mod Tree
pub mod Laws
pub mod Build
use text.Mathlib.Text.{◌==◌ as str_eq}
use control_system_adapter_o.Prelude.{
  ℕ, ◌<◌, String, ◌≡◌, Bool, true, false, Option, none, some, List, [], ◌∷◌, ◌++◌, if◌then◌else◌,
}
use control_system_adapter_o.Prelude.Text.{Text, codes, text_eq}

-- `nsmap`: prefixes with their URIs; the prefix `None` is the default namespace.
abbrev pub Nsmap : Type 0
Nsmap = List (Option Text × Text)

abbrev pub has_default : Nsmap → Bool
has_default [] = false
has_default ((none, _) ∷ m) = true
has_default ((some _, _) ∷ m) = has_default m

abbrev pub first {ℓ} : {A : Type ℓ} → List A → Option A
first [] = none
first (x ∷ _) = some x

-- Every element of the list passes.
abbrev pub Every {ℓ κ} : {A : Type ℓ} → (A → Type κ) → List A → Type κ
Every P [] = Unit
Every P (x ∷ xs) = P x × Every P xs

pub record Etree : Type 1 where
  pub Element : Type 0
  pub tag : Element → Text
  pub attrib : Element → String → Option Text
  pub nsmap : Element → Nsmap
  pub text : Element → Option Text
  -- `e.find(tag, namespaces)`, `e.findall(tag, namespaces)`; no namespaces are `[]`
  pub find : Element → String → Nsmap → Option Element
  pub findall : Element → String → Nsmap → List Element
  -- `ET.Element(tag, nsmap)`
  pub element : String → Nsmap → Element
  -- the child that `ET.SubElement(parent, tag)` makes, and its place behind the other children
  pub sub_element : Element → String → Element
  pub append : Element → Element → Element
  -- `e.set(key, value)`, `e.text = value`
  pub set : Element → String → Text → Element
  pub set_text : Element → Option Text → Element
  -- The number of levels below an element: element trees are finite.
  pub height : Element → ℕ
  pub height-findall :
      (e : Element) (t : String) (m : Nsmap) → Every (λ c. height c < height e) (findall e t m)
  -- `find` is the first match of `findall`.
  pub find-eq : (e : Element) (t : String) (m : Nsmap) → find e t m ≡ first (findall e t m)
  pub tag-element : (t : String) (m : Nsmap) → tag (element t m) ≡ codes t
  pub tag-sub_element : (e : Element) (t : String) → tag (sub_element e t) ≡ codes t
  pub tag-append : (e c : Element) → tag (append e c) ≡ tag e
  pub tag-set : (e : Element) (k : String) (v : Text) → tag (set e k v) ≡ tag e
  pub tag-set_text : (e : Element) (v : Option Text) → tag (set_text e v) ≡ tag e
  pub attrib-element : (t : String) (m : Nsmap) (k : String) → attrib (element t m) k ≡ none
  pub attrib-sub_element : (e : Element) (t k : String) → attrib (sub_element e t) k ≡ none
  pub attrib-append : (e c : Element) (k : String) → attrib (append e c) k ≡ attrib e k
  pub attrib-set :
      (e : Element) (k : String) (v : Text) (j : String)
      → attrib (set e k v) j ≡ (if str_eq k j then some v else attrib e j)
  pub attrib-set_text :
      (e : Element) (v : Option Text) (k : String) → attrib (set_text e v) k ≡ attrib e k
  pub nsmap-element : (t : String) (m : Nsmap) → nsmap (element t m) ≡ m
  pub nsmap-sub_element : (e : Element) (t : String) → nsmap (sub_element e t) ≡ nsmap e
  pub nsmap-append : (e c : Element) → nsmap (append e c) ≡ nsmap e
  pub nsmap-set : (e : Element) (k : String) (v : Text) → nsmap (set e k v) ≡ nsmap e
  pub nsmap-set_text : (e : Element) (v : Option Text) → nsmap (set_text e v) ≡ nsmap e
  pub text-sub_element : (e : Element) (t : String) → text (sub_element e t) ≡ none
  pub text-append : (e c : Element) → text (append e c) ≡ text e
  pub text-set : (e : Element) (k : String) (v : Text) → text (set e k v) ≡ text e
  pub text-set_text : (e : Element) (v : Option Text) → text (set_text e v) ≡ v
  pub findall-element :
      (t : String) (m : Nsmap) (s : String) (n : Nsmap) → findall (element t m) s n ≡ []
  pub findall-sub_element :
      (e : Element) (t s : String) (n : Nsmap) → findall (sub_element e t) s n ≡ []
  pub findall-set :
      (e : Element) (k : String) (v : Text) (s : String) (n : Nsmap)
      → findall (set e k v) s n ≡ findall e s n
  pub findall-set_text :
      (e : Element) (v : Option Text) (s : String) (n : Nsmap)
      → findall (set_text e v) s n ≡ findall e s n
  -- Without a default namespace a tag is matched as it stands.
  pub findall-append :
      (e c : Element) (s : String) (n : Nsmap)
      → has_default n ≡ false
      → findall (append e c) s n
        ≡ findall e s n ++ (if text_eq (tag c) (codes s) then c ∷ [] else [])
