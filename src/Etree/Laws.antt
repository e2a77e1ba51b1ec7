-- ===== src/Etree/Laws.antt =====
-- The laws of the element operations as lemmas over every `Etree`, and their ruleset.
use text.Mathlib.Text.{◌==◌ as str_eq}
use control_system_adapter_o.Prelude.{
  String, ◌≡◌, false, Option, none, some, [], ◌∷◌, ◌++◌, if◌then◌else◌,
}
use control_system_adapter_o.Prelude.Text.{Text, codes, text_eq}
use control_system_adapter_o.Etree.{Etree, Nsmap, has_default, first}

module _ (L : Etree) where
  pub find-eq : (e : L.Element) (t : String) (m : Nsmap) → L.find e t m ≡ first (L.findall e t m)
  find-eq e t m = L.find-eq e t m

  pub tag-element : (t : String) (m : Nsmap) → L.tag (L.element t m) ≡ codes t
  tag-element t m = L.tag-element t m

  pub tag-sub_element : (e : L.Element) (t : String) → L.tag (L.sub_element e t) ≡ codes t
  tag-sub_element e t = L.tag-sub_element e t

  pub tag-append : (e c : L.Element) → L.tag (L.append e c) ≡ L.tag e
  tag-append e c = L.tag-append e c

  pub tag-set : (e : L.Element) (k : String) (v : Text) → L.tag (L.set e k v) ≡ L.tag e
  tag-set e k v = L.tag-set e k v

  pub tag-set_text : (e : L.Element) (v : Option Text) → L.tag (L.set_text e v) ≡ L.tag e
  tag-set_text e v = L.tag-set_text e v

  pub attrib-element : (t : String) (m : Nsmap) (k : String) → L.attrib (L.element t m) k ≡ none
  attrib-element t m k = L.attrib-element t m k

  pub attrib-sub_element : (e : L.Element) (t k : String) → L.attrib (L.sub_element e t) k ≡ none
  attrib-sub_element e t k = L.attrib-sub_element e t k

  pub attrib-append : (e c : L.Element) (k : String) → L.attrib (L.append e c) k ≡ L.attrib e k
  attrib-append e c k = L.attrib-append e c k

  pub attrib-set :
      (e : L.Element) (k : String) (v : Text) (j : String)
      → L.attrib (L.set e k v) j ≡ (if str_eq k j then some v else L.attrib e j)
  attrib-set e k v j = L.attrib-set e k v j

  pub attrib-set_text :
      (e : L.Element) (v : Option Text) (k : String) → L.attrib (L.set_text e v) k ≡ L.attrib e k
  attrib-set_text e v k = L.attrib-set_text e v k

  pub nsmap-element : (t : String) (m : Nsmap) → L.nsmap (L.element t m) ≡ m
  nsmap-element t m = L.nsmap-element t m

  pub nsmap-sub_element : (e : L.Element) (t : String) → L.nsmap (L.sub_element e t) ≡ L.nsmap e
  nsmap-sub_element e t = L.nsmap-sub_element e t

  pub nsmap-append : (e c : L.Element) → L.nsmap (L.append e c) ≡ L.nsmap e
  nsmap-append e c = L.nsmap-append e c

  pub nsmap-set : (e : L.Element) (k : String) (v : Text) → L.nsmap (L.set e k v) ≡ L.nsmap e
  nsmap-set e k v = L.nsmap-set e k v

  pub nsmap-set_text : (e : L.Element) (v : Option Text) → L.nsmap (L.set_text e v) ≡ L.nsmap e
  nsmap-set_text e v = L.nsmap-set_text e v

  pub text-sub_element : (e : L.Element) (t : String) → L.text (L.sub_element e t) ≡ none
  text-sub_element e t = L.text-sub_element e t

  pub text-append : (e c : L.Element) → L.text (L.append e c) ≡ L.text e
  text-append e c = L.text-append e c

  pub text-set : (e : L.Element) (k : String) (v : Text) → L.text (L.set e k v) ≡ L.text e
  text-set e k v = L.text-set e k v

  pub text-set_text : (e : L.Element) (v : Option Text) → L.text (L.set_text e v) ≡ v
  text-set_text e v = L.text-set_text e v

  pub findall-element :
      (t : String) (m : Nsmap) (s : String) (n : Nsmap) → L.findall (L.element t m) s n ≡ []
  findall-element t m s n = L.findall-element t m s n

  pub findall-sub_element :
      (e : L.Element) (t s : String) (n : Nsmap) → L.findall (L.sub_element e t) s n ≡ []
  findall-sub_element e t s n = L.findall-sub_element e t s n

  pub findall-set :
      (e : L.Element) (k : String) (v : Text) (s : String) (n : Nsmap)
      → L.findall (L.set e k v) s n ≡ L.findall e s n
  findall-set e k v s n = L.findall-set e k v s n

  pub findall-set_text :
      (e : L.Element) (v : Option Text) (s : String) (n : Nsmap)
      → L.findall (L.set_text e v) s n ≡ L.findall e s n
  findall-set_text e v s n = L.findall-set_text e v s n

  pub findall-append :
      (e c : L.Element) (s : String) (n : Nsmap)
      → has_default n ≡ false
      → L.findall (L.append e c) s n
        ≡ L.findall e s n ++ (if text_eq (L.tag c) (codes s) then c ∷ [] else [])
  findall-append e c s n h = L.findall-append e c s n h

pub ruleset etree_laws = (
  find-eq, tag-element, tag-sub_element, tag-append, tag-set, tag-set_text, attrib-element,
  attrib-sub_element, attrib-append, attrib-set, attrib-set_text, nsmap-element, nsmap-sub_element,
  nsmap-append, nsmap-set, nsmap-set_text, text-sub_element, text-append, text-set, text-set_text,
  findall-element, findall-sub_element, findall-set, findall-set_text,
)
