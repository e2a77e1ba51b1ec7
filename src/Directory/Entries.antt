-- ===== src/Directory/Entries.antt =====
-- The exclude entries that `generateMapEntries` writes, as a list of source names.
use mathlib.Core.List.{append-nil, append_assoc, map-append}
use control_system_adapter_o.Prelude.{
  ◌≡◌, refl, ap, String, Bool, true, false, not, ◌&&◌, Option, some, List, [], ◌∷◌, ◌++◌, map,
  Bool-cases, inl, inr, if◌then◌else◌,
}
use control_system_adapter_o.Prelude.Text.{Text, codes, text_eq, given, remove_prefix}
use control_system_adapter_o.Etree.{Etree, Nsmap, has_default}
use control_system_adapter_o.Etree.Laws.{etree_laws}
use control_system_adapter_o.Etree.Build.{build_laws, append_if, findall-append_if}
use control_system_adapter_o.Variable.{XmlVar, is_set}
use control_system_adapter_o.Variable.Write.{
  root_slash, text_child, var_exclude, generate_map_entry,
}
use control_system_adapter_o.Variable.RoundTrip.{tag-var_entry}
use control_system_adapter_o.Directory.{
  DirectoryInfo, XmlDirectory, directory, Directories, nil, cons, is_found,
}
use control_system_adapter_o.Directory.Write.{
  dest_text, description_only, is_moved, dir_exclude, description_entry, moved_children,
  folder_entry, own_entries, generate_vars, generate_map_entries, generate_all,
}

abbrev pub single : Bool → Text → List (Option Text)
single b t = if b then some t ∷ [] else []

-- The source names of the excluded variables of a directory.
abbrev pub var_excludes : List XmlVar → Bool → List (Option Text)
var_excludes [] active = []
var_excludes (v ∷ vs) active =
    single (is_set v.exclude && not active) (remove_prefix root_slash v.full_name)
    ++ var_excludes vs active

-- The source names of all exclude entries: whether an entry is left out for `active` is passed to a
-- directory's own children only, and does not look at the value of its flag.
abbrev mutual
  pub excludes : XmlDirectory → Bool → List (Option Text)
  excludes (directory i ds vs) active =
      excludes_in ds (is_found i.exclude)
      ++ (var_excludes vs (is_found i.exclude)
          ++ single (is_set i.exclude && not active)
              (remove_prefix root_slash i.path ++ codes "/*"))

  pub excludes_in : Directories → Bool → List (Option Text)
  excludes_in nil active = []
  excludes_in (cons d ds) active = excludes d active ++ excludes_in ds active

module _ (L : Etree) (n : Nsmap) (plain : has_default n ≡ false) where
  -- The source names of the exclude entries of an element.
  pub sources : L.Element → List (Option Text)
  sources e = map (λ c. L.attrib c "sourceName") (L.findall e "exclude" n)

  sources-append_if :
      (b : Bool) (e c : L.Element)
      → sources (append_if L b e c)
        ≡ sources e
          ++ (if text_eq (L.tag c) (codes "exclude")
              then (if b then L.attrib c "sourceName" ∷ [] else [])
              else [])
  unfolding sources
  sources-append_if b e c =
      rw (findall-append_if L b e c "exclude" n plain, map-append)
        (ap (λ l. sources e ++ l) (cases (text_eq (L.tag c) (codes "exclude")) b))
    where
      cases :
          (x b : Bool)
          → map (λ c. L.attrib c "sourceName") (if x then (if b then c ∷ [] else []) else [])
            ≡ (if x then (if b then L.attrib c "sourceName" ∷ [] else []) else [])
      cases true true = refl
      cases true false = refl
      cases false b = refl

  tag-text_child : (e : L.Element) (t : String) (x : Text) → L.tag (text_child L e t x) ≡ L.tag e
  unfolding text_child
  tag-text_child e t x = L.tag-append _ _

  sources-generate_map_entry :
      (v : XmlVar) (ha : Bool) (root : L.Element) (path : Text) (ea : Bool)
      → sources (generate_map_entry L v ha root path ea)
        ≡ sources root ++ single (is_set v.exclude && not ea) (remove_prefix root_slash v.full_name)
  unfolding generate_map_entry var_exclude text_eq
  sources-generate_map_entry v ha root path ea =
      rw (sources-append_if, sources-append_if, tag-var_entry) (simp (etree_laws, append-nil))

  pub tag-description_entry :
      (i : DirectoryInfo) (root : L.Element) → L.tag (description_entry L i root) ≡ codes "folder"
  unfolding description_entry text_child
  tag-description_entry i root = elim (Bool-cases (text_eq (dest_text i) (codes ""))) [
    | inl top ↦ simp (top, etree_laws)
    | inr deep ↦ simp (deep, etree_laws)
  ]

  tag-moved_children : (i : DirectoryInfo) (e : L.Element) → L.tag (moved_children L i e) ≡ L.tag e
  unfolding moved_children text_child
  tag-moved_children i e = elim (Bool-cases (given i.new_description && not (description_only i))) [
    | inl described ↦ simp (described, etree_laws)
    | inr plainly ↦ simp (plainly, etree_laws)
  ]

  pub tag-folder_entry :
      (i : DirectoryInfo) (root : L.Element) (ha : Bool)
      → L.tag (folder_entry L i root ha) ≡ codes "folder"
  unfolding folder_entry
  tag-folder_entry i root ha = elim (Bool-cases (is_moved i)) [
    | inl moved ↦ simp (moved, tag-moved_children, etree_laws, build_laws)
    | inr stays ↦ simp (stays, etree_laws, build_laws)
  ]

  sources-own_entries :
      (i : DirectoryInfo) (root : L.Element) (ha ea : Bool)
      → sources (own_entries L i root ha ea)
        ≡ sources root
          ++ single (is_set i.exclude && not ea) (remove_prefix root_slash i.path ++ codes "/*")
  unfolding own_entries dir_exclude text_eq
  sources-own_entries i root ha ea =
      rw
        (
          sources-append_if, sources-append_if, sources-append_if, tag-description_entry,
          tag-folder_entry,
        )
        (simp (etree_laws, append-nil))

  sources-generate_vars :
      (vs : List XmlVar) (root : L.Element) (path : Text) (ha ea : Bool)
      → sources (generate_vars L vs root path ha ea) ≡ sources root ++ var_excludes vs ea
  unfolding generate_vars
  sources-generate_vars [] root path ha ea = rw append-nil refl
  sources-generate_vars (v ∷ vs) root path ha ea =
      rw (sources-generate_vars vs, sources-generate_map_entry, append_assoc) refl

  mutual
    unfolding generate_map_entries

    sources-generate :
        (d : XmlDirectory) (root : L.Element) (ha ea : Bool)
        → sources (generate_map_entries L d root ha ea) ≡ sources root ++ excludes d ea
    sources-generate (directory i ds vs) root ha ea =
        rw
          (
            sources-own_entries,
            sources-generate_vars,
            sources-generate_all ds,
            append_assoc,
            append_assoc,
          )
          refl

    sources-generate_all :
        (ds : Directories) (root : L.Element) (ha ea : Bool)
        → sources (generate_all L ds root ha ea) ≡ sources root ++ excludes_in ds ea
    sources-generate_all nil root ha ea = rw append-nil refl
    sources-generate_all (cons d ds) root ha ea =
        rw (sources-generate_all ds, sources-generate d, append_assoc) refl

  -- For namespaces without a default, `generateMapEntries` adds exclude entries for exactly the names of
  -- `excludes`, in that order, behind those that the element had.
  pub sources-generate_map_entries :
      (d : XmlDirectory) (root : L.Element) (ha ea : Bool)
      → sources (generate_map_entries L d root ha ea) ≡ sources root ++ excludes d ea
  sources-generate_map_entries = sources-generate
