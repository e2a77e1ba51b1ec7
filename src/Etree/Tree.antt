-- ===== src/Etree/Tree.antt =====
-- Plain element trees, which meet the assumptions on `lxml.etree`; tests and witnesses run on them.
use mathlib.Core.List.{append_assoc}
use package.text.Mathlib.Text.{◌==◌ as str_eq}
use package.text.Mathlib.TextEquality.{eq_iff}
use control_system_adapter_o.Prelude.{
  ℕ, suc, ◌+◌, ◌<◌, ◌≤◌, String, ◌≡◌, refl, false, Option, none, some, List, [], ◌∷◌, ◌++◌, arith,
  if◌then◌else◌,
}
use control_system_adapter_o.Prelude.Text.{Text, codes, text_eq}
use control_system_adapter_o.Etree.{Etree, Nsmap, Every, has_default, first}

mutual
  pub data Node : Type 0 where
    node : Text → Nsmap → List (String × Text) → Option Text → Nodes → Node

  pub data Nodes : Type 0 where
    nil : Nodes
    cons : Node → Nodes → Nodes

abbrev pub tag : Node → Text
tag (node t m a x c) = t

abbrev pub lookup : String → List (String × Text) → Option Text
lookup k [] = none
lookup k ((j, v) ∷ a) = if str_eq j k then some v else lookup k a

abbrev pub attrib : Node → String → Option Text
attrib (node t m a x c) k = lookup k a

abbrev pub nsmap : Node → Nsmap
nsmap (node t m a x c) = m

abbrev pub text : Node → Option Text
text (node t m a x c) = x

abbrev pub children : Node → Nodes
children (node t m a x c) = c

-- A tag without a prefix stands in the default namespace, if there is one.
abbrev pub qualify : Nsmap → Text → Text
qualify [] t = t
qualify ((none, uri) ∷ m) t = b'{' ∷ (uri ++ (b'}' ∷ t))
qualify ((some _, _) ∷ m) t = qualify m t

unfoldable pub select : Text → Nodes → List Node
unfolding text_eq
select t nil = []
select t (cons n ns) = (if text_eq (tag n) t then n ∷ [] else []) ++ select t ns

abbrev pub findall : Node → String → Nsmap → List Node
findall e t m = select (qualify m (codes t)) (children e)

abbrev pub find : Node → String → Nsmap → Option Node
find e t m = first (findall e t m)

abbrev pub element : String → Nsmap → Node
element t m = node (codes t) m [] none nil

abbrev pub sub_element : Node → String → Node
sub_element e t = node (codes t) (nsmap e) [] none nil

abbrev pub snoc : Nodes → Node → Nodes
snoc nil c = cons c nil
snoc (cons n ns) c = cons n (snoc ns c)

abbrev pub append : Node → Node → Node
append (node t m a x ns) c = node t m a x (snoc ns c)

abbrev pub put : String → Text → List (String × Text) → List (String × Text)
put k v [] = (k, v) ∷ []
put k v ((j, w) ∷ a) = if str_eq j k then (j, v) ∷ a else (j, w) ∷ put k v a

abbrev pub set : Node → String → Text → Node
set (node t m a x c) k v = node t m (put k v a) x c

abbrev pub set_text : Node → Option Text → Node
set_text (node t m a x c) v = node t m a v c

unfoldable mutual
  pub height : Node → ℕ
  height (node t m a x c) = heights c

  pub heights : Nodes → ℕ
  heights nil = 0
  heights (cons n ns) = suc (height n) + heights ns

Every-append :
    (P : Node → Type 0) (xs ys : List Node) → Every P xs → Every P ys → Every P (xs ++ ys)
Every-append P [] ys h k = k
Every-append P (x ∷ xs) ys h k = (h.0, Every-append P xs ys h.1 k)

Every-mono :
    (a b : ℕ) (xs : List Node) → a ≤ b → Every (λ c. height c < a) xs → Every (λ c. height c < b) xs
Every-mono a b [] h k = tt
Every-mono a b (x ∷ xs) h k = (omega (arith, k.0), Every-mono a b xs h k.1)

select-height : (t : Text) (ns : Nodes) → Every (λ c. height c < heights ns) (select t ns)
unfolding select height
select-height t nil = tt
select-height t (cons n ns) =
    Every-append _ (if text_eq (tag n) t then n ∷ [] else []) (select t ns) (ground arith) (
      Every-mono (heights ns) (suc (height n) + heights ns) (select t ns) (omega arith)
        (select-height t ns))

pub height-findall :
    (e : Node) (t : String) (m : Nsmap) → Every (λ c. height c < height e) (findall e t m)
unfolding height
height-findall (node t m a x c) s n = select-height (qualify n (codes s)) c

lookup-put :
    (k : String) (v : Text) (a : List (String × Text)) (j : String)
    → lookup j (put k v a) ≡ (if str_eq k j then some v else lookup j a)
lookup-put k v [] j = refl
lookup-put k v ((i, w) ∷ a) j =
    ground (arith, eq_iff i k, eq_iff i j, eq_iff k j, lookup-put k v a j)

select-snoc :
    (t : Text) (ns : Nodes) (c : Node)
    → select t (snoc ns c) ≡ select t ns ++ (if text_eq (tag c) t then c ∷ [] else [])
unfolding select
select-snoc t nil c = ground arith
select-snoc t (cons n ns) c = rw (select-snoc t ns c, append_assoc)

qualify-plain : (m : Nsmap) (t : Text) → has_default m ≡ false → qualify m t ≡ t
qualify-plain [] t h = refl
qualify-plain ((none, u) ∷ m) t h = cc
qualify-plain ((some _, _) ∷ m) t h = qualify-plain m t h

pub findall-append :
    (e c : Node) (s : String) (n : Nsmap)
    → has_default n ≡ false
    → findall (append e c) s n ≡ findall e s n ++ (if text_eq (tag c) (codes s) then c ∷ [] else [])
findall-append (node t m a x ns) c s n h =
    rw (qualify-plain n (codes s) h) (select-snoc (codes s) ns c)

pub attrib-set :
    (e : Node) (k : String) (v : Text) (j : String)
    → attrib (set e k v) j ≡ (if str_eq k j then some v else attrib e j)
attrib-set (node t m a x c) k v j = lookup-put k v a j

module _ (e : Node) where
  pub tag-append : (c : Node) → tag (append e c) ≡ tag e
  tag-append c = ground arith

  pub tag-set : (k : String) (v : Text) → tag (set e k v) ≡ tag e
  tag-set k v = ground arith

  pub tag-set_text : (v : Option Text) → tag (set_text e v) ≡ tag e
  tag-set_text v = ground arith

  pub attrib-append : (c : Node) (k : String) → attrib (append e c) k ≡ attrib e k
  attrib-append c k = ground arith

  pub attrib-set_text : (v : Option Text) (k : String) → attrib (set_text e v) k ≡ attrib e k
  attrib-set_text v k = ground arith

  pub nsmap-append : (c : Node) → nsmap (append e c) ≡ nsmap e
  nsmap-append c = ground arith

  pub nsmap-set : (k : String) (v : Text) → nsmap (set e k v) ≡ nsmap e
  nsmap-set k v = ground arith

  pub nsmap-set_text : (v : Option Text) → nsmap (set_text e v) ≡ nsmap e
  nsmap-set_text v = ground arith

  pub text-append : (c : Node) → text (append e c) ≡ text e
  text-append c = ground arith

  pub text-set : (k : String) (v : Text) → text (set e k v) ≡ text e
  text-set k v = ground arith

  pub text-set_text : (v : Option Text) → text (set_text e v) ≡ v
  text-set_text v = ground arith

  pub findall-set :
      (k : String) (v : Text) (s : String) (n : Nsmap) → findall (set e k v) s n ≡ findall e s n
  findall-set k v s n = ground arith

  pub findall-set_text :
      (v : Option Text) (s : String) (n : Nsmap) → findall (set_text e v) s n ≡ findall e s n
  findall-set_text v s n = ground arith

pub findall-sub_element : (e : Node) (t s : String) (n : Nsmap) → findall (sub_element e t) s n ≡ []
unfolding select
findall-sub_element e t s n = refl

pub findall-element :
    (t : String) (m : Nsmap) (s : String) (n : Nsmap) → findall (element t m) s n ≡ []
unfolding select
findall-element t m s n = refl

abbrev pub tree : Etree
tree = record {
  Element = Node;
  tag = tag;
  attrib = attrib;
  nsmap = nsmap;
  text = text;
  find = find;
  findall = findall;
  element = element;
  sub_element = sub_element;
  append = append;
  set = set;
  set_text = set_text;
  height = height;
  height-findall = height-findall;
  find-eq = λ e t m. refl;
  tag-element = λ t m. refl;
  tag-sub_element = λ e t. refl;
  tag-append = tag-append;
  tag-set = tag-set;
  tag-set_text = tag-set_text;
  attrib-element = λ t m k. refl;
  attrib-sub_element = λ e t k. refl;
  attrib-append = attrib-append;
  attrib-set = attrib-set;
  attrib-set_text = attrib-set_text;
  nsmap-element = λ t m. refl;
  nsmap-sub_element = λ e t. refl;
  nsmap-append = nsmap-append;
  nsmap-set = nsmap-set;
  nsmap-set_text = nsmap-set_text;
  text-sub_element = λ e t. refl;
  text-append = text-append;
  text-set = text-set;
  text-set_text = text-set_text;
  findall-element = findall-element;
  findall-sub_element = findall-sub_element;
  findall-set = findall-set;
  findall-set_text = findall-set_text;
  findall-append = findall-append;
}
