-- ===== src/Variable/RoundTrip.antt =====
-- A variable's entry, read back.
use mathlib.Core.List.{append-nil}
use control_system_adapter_o.Prelude.{
  String, ◌≡◌, refl, Bool, true, false, not, ◌&&◌, Option, none, some, [], ◌∷◌, ◌++◌, Bool-cases,
  inl, inr, if◌then◌else◌,
}
use control_system_adapter_o.Prelude.Text.{
  Text, codes, text_eq, text_eq_refl, opt_eq, given, text_of, kept, remove_prefix,
}
use control_system_adapter_o.Prelude.Result.{opt_or_old-none}
use control_system_adapter_o.Etree.{Etree, Nsmap, has_default, first}
use control_system_adapter_o.Etree.Laws.{etree_laws}
use control_system_adapter_o.Etree.Build.{
  build_laws, append_if, findall-append_if, nsmap-append_if, nsmap-set_if, first-if, if-nil,
}
use control_system_adapter_o.Variable.{XmlVar, reset_var}
use control_system_adapter_o.Variable.Write.{
  text_child, given_child, var_destination, var_entry, root_slash,
}
use control_system_adapter_o.Variable.Read.{text_or_old, read_pv, settle_root}

module _ (L : Etree) where
  text_or_old-if :
      (b : Bool) (c : L.Element)
      → text_or_old L (if b then some c else none) none ≡ (if b then L.text c else none)
  text_or_old-if true c = refl
  text_or_old-if false c = refl

  two_names :
      (a b : Bool) (x y : L.Element)
      → text_or_old L (first ((if a then x ∷ [] else []) ++ (if b then y ∷ [] else []))) none
        ≡ (if a then L.text x else if b then L.text y else none)
  two_names true b x y = refl
  two_names false true x y = refl
  two_names false false x y = refl

  nsmap-text_child :
      (e : L.Element) (t : String) (x : Text) → L.nsmap (text_child L e t x) ≡ L.nsmap e
  unfolding text_child
  nsmap-text_child e t x = simp etree_laws

  nsmap-given_child :
      (e : L.Element) (t : String) (o : Option Text) → L.nsmap (given_child L e t o) ≡ L.nsmap e
  unfolding given_child
  nsmap-given_child e t o = elim (Bool-cases (given o)) [
    | inl set ↦ simp (set, etree_laws)
    | inr unset ↦ simp unset
  ]

  pub tag-given_child :
      (e : L.Element) (t : String) (o : Option Text) → L.tag (given_child L e t o) ≡ L.tag e
  unfolding given_child
  tag-given_child e t o = elim (Bool-cases (given o)) [
    | inl set ↦ simp (set, etree_laws)
    | inr unset ↦ simp unset
  ]

  attrib-given_child :
      (e : L.Element) (t : String) (o : Option Text) (k : String)
      → L.attrib (given_child L e t o) k ≡ L.attrib e k
  unfolding given_child
  attrib-given_child e t o k = elim (Bool-cases (given o)) [
    | inl set ↦ simp (set, etree_laws)
    | inr unset ↦ simp unset
  ]

  findall-text_child :
      (e : L.Element) (t : String) (x : Text) (s : String) (n : Nsmap)
      → has_default n ≡ false
      → L.findall (text_child L e t x) s n
        ≡ L.findall e s n
          ++ (if text_eq (codes t) (codes s)
              then L.set_text (L.sub_element e t) (some x) ∷ []
              else [])
  unfolding text_child
  findall-text_child e t x s n plain =
      rw (L.findall-append _ _ s n plain, L.tag-set_text, L.tag-sub_element) refl

  findall-given_child :
      (e : L.Element) (t : String) (o : Option Text) (s : String) (n : Nsmap)
      → has_default n ≡ false
      → L.findall (given_child L e t o) s n
        ≡ L.findall e s n
          ++ (if text_eq (codes t) (codes s)
              then (if given o then L.set_text (L.sub_element e t) (some (text_of o)) ∷ [] else [])
              else [])
  unfolding given_child
  findall-given_child e t o s n plain = elim (Bool-cases (given o)) [
    | inl set ↦ simp set (findall-text_child e t (text_of o) s n plain)
    | inr unset ↦ simp (unset, if-nil, append-nil)
  ]

-- The destination step of the entry as two children, each under a condition.
module _ (L : Etree) (v : XmlVar) where
  abbrev to_root : Bool
  to_root = text_eq (text_of v.new_destination) (codes "/root")

  abbrev destination_text : Option Text
  destination_text =
      if to_root then none else some (remove_prefix root_slash (text_of v.new_destination))

  destination_child : L.Element → L.Element
  destination_child pv =
      let e = L.sub_element pv "destination" in
      if to_root
      then e
      else L.set_text e (some (remove_prefix root_slash (text_of v.new_destination)))

  name_child : L.Element → L.Element
  name_child pv = L.set_text (L.sub_element pv "name") (some v.name)

  abbrev named_for_root : Bool
  named_for_root = given v.new_destination && (to_root && not (given v.new_name))

  abbrev with_destination : L.Element → L.Element
  with_destination pv = append_if L (given v.new_destination) pv (destination_child pv)

  var_destination_lem :
      (active : Bool) (pv : L.Element)
      → var_destination L v active pv
        ≡ append_if L named_for_root (with_destination pv) (name_child (with_destination pv))
  unfolding var_destination append_if text_child destination_child name_child
  var_destination_lem active pv = elim (Bool-cases (given v.new_destination)) [
    | inl moved ↦ elim (Bool-cases to_root) [
      | inl root ↦ elim (Bool-cases (given v.new_name)) [
        | inl named ↦ simp (moved, root, named)
        | inr unnamed ↦ simp (moved, root, unnamed)
      ]
      | inr below ↦ simp (moved, below)
    ]
    | inr stays ↦ simp stays
  ]

  tag-destination_child : (pv : L.Element) → L.tag (destination_child pv) ≡ codes "destination"
  unfolding destination_child
  tag-destination_child pv = elim (Bool-cases to_root) [
    | inl root ↦ simp (root, etree_laws)
    | inr below ↦ simp (below, etree_laws)
  ]

  text-destination_child : (pv : L.Element) → L.text (destination_child pv) ≡ destination_text
  unfolding destination_child
  text-destination_child pv = elim (Bool-cases to_root) [
    | inl root ↦ simp (root, etree_laws)
    | inr below ↦ simp (below, etree_laws)
  ]

  tag-name_child : (pv : L.Element) → L.tag (name_child pv) ≡ codes "name"
  unfolding name_child
  tag-name_child pv = simp etree_laws

  text-name_child : (pv : L.Element) → L.text (name_child pv) ≡ some v.name
  unfolding name_child
  text-name_child pv = simp etree_laws

ruleset entry_laws = (
  two_names, etree_laws, build_laws, nsmap-set_if, append-nil, first-if, text_or_old-if,
  nsmap-text_child, nsmap-given_child, attrib-given_child, findall-given_child, findall-append_if,
  nsmap-append_if, opt_or_old-none, var_destination_lem, tag-destination_child,
  text-destination_child, tag-name_child, text-name_child,
)

-- What the entry keeps. A new destination is kept without `/root/`; a move to the root is lost where
-- there is a new name too.
abbrev pub stored_destination : XmlVar → Option Text
stored_destination v =
    if not (given v.new_destination)
    then none
    else if text_eq (text_of v.new_destination) (codes "/root")
    then (if given v.new_name then none else some (codes "/root"))
    else some (remove_prefix root_slash (text_of v.new_destination))

abbrev pub stored_var : XmlVar → Bool → XmlVar
stored_var v active = record v {
  historizing = if given v.historizing && not active then some (text_of v.historizing) else none;
  new_name = kept v.new_name;
  new_unit = kept v.new_unit;
  new_description = kept v.new_description;
  new_destination = stored_destination v;
}

-- The entry before the rule about the root is applied.
abbrev unsettled : (L : Etree) → XmlVar → Bool → XmlVar
unsettled L v active = record (stored_var v active) {
  new_name =
      if given v.new_name
      then some (text_of v.new_name)
      else if named_for_root L v
      then some v.name
      else none;
  new_destination = if given v.new_destination then destination_text L v else none;
}

opt_eq_refl : (t : Text) → opt_eq (some t) (some t) ≡ true
unfolding opt_eq
opt_eq_refl t = text_eq_refl t

and-false : (b : Bool) → (b && false) ≡ false
and-false true = refl
and-false false = refl

module _ (L : Etree) (v : XmlVar) (active : Bool) where
  settle_root-unsettled :
      opt_eq (some v.name) (kept v.new_name) ≡ false
      → settle_root (unsettled L v active) ≡ stored_var v active
  unfolding settle_root
  settle_root-unsettled fresh = elim (Bool-cases (given v.new_name)) [
    | inl named ↦
        let differs : opt_eq (some v.name) (some (text_of v.new_name)) ≡ false =
          simp named at fresh in
        elim (Bool-cases (given v.new_destination)) [
          | inl moved ↦ simp (named, differs, moved, and-false)
          | inr stays ↦ simp (named, differs, stays)
        ]
    | inr unnamed ↦ elim (Bool-cases (given v.new_destination)) [
      | inl moved ↦ elim (Bool-cases (to_root L v)) [
        | inl root ↦ simp (unnamed, moved, root, opt_eq_refl)
        | inr below ↦ simp (unnamed, moved, below, and-false)
      ]
      | inr stays ↦ simp (unnamed, stays)
    ]
  ]

  -- The entry of a variable, on a root element without a default namespace, read into the variable as it
  -- was before the changes, gives the changes back as `stored_var`, unless the new name is the old one.
  pub read_pv-var_entry :
      (root : L.Element) (path : Text)
      → has_default (L.nsmap root) ≡ false
      → opt_eq (some v.name) (kept v.new_name) ≡ false
      → read_pv L (var_entry L v active root path) (record (reset_var v) { historizing = none })
        ≡ stored_var v active
  unfolding read_pv var_entry text_eq reset_var
  read_pv-var_entry root path plain fresh = simp (entry_laws, plain) (settle_root-unsettled fresh)

pub tag-var_entry :
    (L : Etree) (v : XmlVar) (active : Bool) (root : L.Element) (path : Text)
    → L.tag (var_entry L v active root path) ≡ codes "process_variable"
unfolding var_entry
tag-var_entry L v active root path = simp (entry_laws, tag-given_child)
