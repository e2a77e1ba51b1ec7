-- ===== src/Directory/Write.antt =====
-- `XMLDirectory.generateMapEntries`: the entries of the directories below, of the variables, and of
-- the directory itself are added to the root element in this order.
use control_system_adapter_o.Prelude.{Bool, not, ◌&&◌, ◌||◌, List, [], ◌∷◌, ◌++◌, if◌then◌else◌}
use control_system_adapter_o.Prelude.Text.{
  Text, codes, text_eq, given, text_of, remove_prefix, remove_suffix,
}
use control_system_adapter_o.Etree.{Etree}
use control_system_adapter_o.Etree.Build.{set_if, append_if}
use control_system_adapter_o.Variable.{XmlVar, is_set}
use control_system_adapter_o.Variable.Write.{root_slash, text_child, generate_map_entry}
use control_system_adapter_o.Directory.{
  DirectoryInfo, XmlDirectory, directory, Directories, nil, cons, is_found,
}

-- `destText`: the path of the parent directory below the root
unfoldable pub dest_text : DirectoryInfo → Text
unfolding remove_prefix remove_suffix
dest_text i = remove_suffix i.name (remove_prefix (codes "/root") i.path)

-- `destText.removeprefix('/').removesuffix('/')`
unfoldable pub dest_inner : DirectoryInfo → Text
unfolding dest_text
dest_inner i = remove_suffix (codes "/") (remove_prefix (codes "/") (dest_text i))

abbrev pub description_only : DirectoryInfo → Bool
description_only i =
    given i.new_description && (not (given i.new_name) && not (given i.new_destination))

abbrev pub is_moved : DirectoryInfo → Bool
is_moved i = given i.new_name || given i.new_destination

module _ (L : Etree) (i : DirectoryInfo) where
  unfoldable pub dir_exclude : L.Element → L.Element
  unfolding remove_prefix
  dir_exclude root =
      L.set (L.sub_element root "exclude") "sourceName"
        (remove_prefix root_slash i.path ++ codes "/*")

  -- The entry of a directory of which only the description changes
  unfoldable pub description_entry : L.Element → L.Element
  unfolding dest_inner text_child
  description_entry root =
      let e1 =
        text_child L (L.sub_element root "folder") "description" (text_of i.new_description) in
      let e2 = text_child L e1 "name" i.name in
      if not (text_eq (dest_text i) (codes ""))
      then text_child L e2 "destination" (dest_inner i)
      else e2

  -- The children of the entry of a directory that is renamed or moved
  unfoldable pub moved_children : L.Element → L.Element
  unfolding dest_inner text_child
  moved_children e =
      let e1 =
        if given i.new_description && not (description_only i)
        then text_child L e "description" (text_of i.new_description)
        else e in
      let e2 = text_child L e1 "name" (if given i.new_name then text_of i.new_name else i.name) in
      text_child L e2 "destination" (
        if given i.new_destination
        then remove_prefix (codes "/") (remove_prefix (codes "/root") (text_of i.new_destination))
        else dest_inner i)

  unfoldable pub folder_entry : L.Element → Bool → L.Element
  unfolding set_if remove_prefix moved_children
  folder_entry root historizing_active =
      let e1 = L.set (L.sub_element root "folder") "sourceName" (remove_prefix root_slash i.path) in
      let e2 = L.set e1 "copy" (codes "False") in
      let e3 =
        set_if L (given i.historizing && not historizing_active) e2 "history"
          (text_of i.historizing) in
      if is_moved i then moved_children e3 else e3

  -- The part of the method behind the loops
  unfoldable pub own_entries : L.Element → Bool → Bool → L.Element
  own_entries root historizing_active exclude_active =
      let r1 = append_if L (is_set i.exclude && not exclude_active) root (dir_exclude root) in
      let r2 = append_if L (description_only i) r1 (description_entry r1) in
      append_if L (is_moved i || (given i.historizing && not historizing_active)) r2
        (folder_entry r2 historizing_active)

module _ (L : Etree) where
  -- `for var in self.vars`
  unfoldable pub generate_vars : List XmlVar → L.Element → Text → Bool → Bool → L.Element
  generate_vars [] root path ha ea = root
  generate_vars (v ∷ vs) root path ha ea =
      generate_vars vs (generate_map_entry L v ha root path ea) path ha ea

  unfoldable mutual
    unfolding generate_vars

    pub generate_map_entries : XmlDirectory → L.Element → Bool → Bool → L.Element
    generate_map_entries (directory i ds vs) root historizing_active exclude_active =
        own_entries L i
          (generate_vars vs (generate_all ds root (is_found i.historizing) (is_found i.exclude))
            i.path (is_found i.historizing) (is_found i.exclude))
          historizing_active exclude_active

    pub generate_all : Directories → L.Element → Bool → Bool → L.Element
    generate_all nil root ha ea = root
    generate_all (cons d ds) root ha ea = generate_all ds (generate_map_entries d root ha ea) ha ea
