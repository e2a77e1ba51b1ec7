-- ===== src/Directory/Sections.antt =====
-- `generateMapEntries` adds children to the map file's element and leaves its settings alone.
use mathlib.Core.List.{append-nil}
use control_system_adapter_o.Prelude.{◌≡◌, refl, ◌∙◌, false, List, [], ◌∷◌, Bool, not, ◌&&◌, ◌||◌}
use control_system_adapter_o.Prelude.Text.{Text, codes, text_eq, given}
use control_system_adapter_o.Etree.{Etree, Nsmap, has_default}
use control_system_adapter_o.Etree.Laws.{etree_laws}
use control_system_adapter_o.Etree.Build.{
  append_if, tag-append_if, nsmap-append_if, findall-append_if,
}
use control_system_adapter_o.Variable.{XmlVar, is_set}
use control_system_adapter_o.Variable.Write.{var_exclude, var_entry, has_entry, generate_map_entry}
use control_system_adapter_o.Variable.RoundTrip.{tag-var_entry}
use control_system_adapter_o.Directory.{
  DirectoryInfo, XmlDirectory, directory, Directories, nil, cons, is_found,
}
use control_system_adapter_o.Directory.Write.{
  description_only, is_moved, dir_exclude, description_entry, folder_entry, own_entries,
  generate_vars, generate_map_entries, generate_all,
}
use control_system_adapter_o.Directory.Entries.{tag-description_entry, tag-folder_entry}

module _ (L : Etree) (n : Nsmap) (plain : has_default n ≡ false) where
  -- The same tag and namespaces, and the same settings.
  pub record Agrees (a b : L.Element) : Type 0 where
    pub tag : L.tag a ≡ L.tag b
    pub nsmap : L.nsmap a ≡ L.nsmap b
    pub config : L.findall a "config" n ≡ L.findall b "config" n

  Agrees-refl : (a : L.Element) → Agrees a a
  Agrees-refl a = record { tag = refl; nsmap = refl; config = refl }

  Agrees-trans : (a b c : L.Element) → Agrees a b → Agrees b c → Agrees a c
  Agrees-trans a b c h k = record {
    tag = h.tag ∙ k.tag;
    nsmap = h.nsmap ∙ k.nsmap;
    config = h.config ∙ k.config;
  }

  append_if-Agrees :
      (b : Bool) (e c : L.Element)
      → text_eq (L.tag c) (codes "config") ≡ false
      → Agrees (append_if L b e c) e
  append_if-Agrees b e c h = record {
    tag = tag-append_if L b e c;
    nsmap = nsmap-append_if L b e c;
    config = rw (findall-append_if L b e c "config" n plain, h) (append-nil _);
  }

  two-Agrees :
      (b1 b2 : Bool) (e c1 : L.Element) (c2 : L.Element)
      → text_eq (L.tag c1) (codes "config") ≡ false
      → text_eq (L.tag c2) (codes "config") ≡ false
      → Agrees (append_if L b2 (append_if L b1 e c1) c2) e
  two-Agrees b1 b2 e c1 c2 h k =
      Agrees-trans _ (append_if L b1 e c1) e (append_if-Agrees b2 (append_if L b1 e c1) c2 k)
        (append_if-Agrees b1 e c1 h)

  var_exclude-other :
      (v : XmlVar) (ha : Bool) (root : L.Element)
      → text_eq (L.tag (var_exclude L v ha root)) (codes "config") ≡ false
  unfolding var_exclude text_eq
  var_exclude-other v ha root = simp etree_laws

  generate_map_entry-Agrees :
      (v : XmlVar) (ha : Bool) (root : L.Element) (path : Text) (ea : Bool)
      → Agrees (generate_map_entry L v ha root path ea) root
  unfolding generate_map_entry text_eq
  generate_map_entry-Agrees v ha root path ea =
      two-Agrees (is_set v.exclude && not ea) (has_entry L v ha) root (var_exclude L v ha root)
        (var_entry L v ha (append_if L (is_set v.exclude && not ea) root (var_exclude L v ha root))
          path)
        (var_exclude-other v ha root) (rw (tag-var_entry L v ha) refl)

  dir_exclude-other :
      (i : DirectoryInfo) (root : L.Element)
      → text_eq (L.tag (dir_exclude L i root)) (codes "config") ≡ false
  unfolding dir_exclude text_eq
  dir_exclude-other i root = simp etree_laws

  own_entries-Agrees :
      (i : DirectoryInfo) (root : L.Element) (ha ea : Bool)
      → Agrees (own_entries L i root ha ea) root
  unfolding own_entries text_eq
  own_entries-Agrees i root ha ea =
      let r1 = append_if L (is_set i.exclude && not ea) root (dir_exclude L i root) in
      let r2 = append_if L (description_only i) r1 (description_entry L i r1) in
      Agrees-trans _ r2 root
        (append_if-Agrees (is_moved i || (given i.historizing && not ha)) r2
          (folder_entry L i r2 ha) (rw (tag-folder_entry L n plain i r2 ha) refl))
        (two-Agrees (is_set i.exclude && not ea) (description_only i) root (dir_exclude L i root)
          (description_entry L i r1) (dir_exclude-other i root)
          (rw (tag-description_entry L n plain i r1) refl))

  generate_vars-Agrees :
      (vs : List XmlVar) (root : L.Element) (path : Text) (ha ea : Bool)
      → Agrees (generate_vars L vs root path ha ea) root
  unfolding generate_vars
  generate_vars-Agrees [] root path ha ea = Agrees-refl root
  generate_vars-Agrees (v ∷ vs) root path ha ea =
      Agrees-trans _ (generate_map_entry L v ha root path ea) root
        (generate_vars-Agrees vs (generate_map_entry L v ha root path ea) path ha ea)
        (generate_map_entry-Agrees v ha root path ea)

  mutual
    unfolding generate_map_entries

    pub generate_map_entries-Agrees :
        (d : XmlDirectory) (root : L.Element) (ha ea : Bool)
        → Agrees (generate_map_entries L d root ha ea) root
    generate_map_entries-Agrees (directory i ds vs) root ha ea =
        let r1 = generate_all L ds root (is_found i.historizing) (is_found i.exclude) in
        let r2 = generate_vars L vs r1 i.path (is_found i.historizing) (is_found i.exclude) in
        Agrees-trans _ r2 root (own_entries-Agrees i r2 ha ea) (
          Agrees-trans r2 r1 root
            (generate_vars-Agrees vs r1 i.path (is_found i.historizing) (is_found i.exclude))
            (generate_all-Agrees ds root (is_found i.historizing) (is_found i.exclude)))

    generate_all-Agrees :
        (ds : Directories) (root : L.Element) (ha ea : Bool)
        → Agrees (generate_all L ds root ha ea) root
    generate_all-Agrees nil root ha ea = Agrees-refl root
    generate_all-Agrees (cons d ds) root ha ea =
        let r1 = generate_map_entries L d root ha ea in
        Agrees-trans _ r1 root (generate_all-Agrees ds r1 ha ea)
          (generate_map_entries-Agrees d root ha ea)
