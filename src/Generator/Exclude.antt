-- ===== src/Generator/Exclude.antt =====
-- The exclude entry of a directory, as `generateMapEntries` writes it and `parseMapFile` reads it.
use mathlib.Core.List.{reverse-append, reverse-reverse}
use control_system_adapter_o.Prelude.{◌+◌, ◌≡◌, refl, true, Option, none, some, ◌++◌, if◌then◌else◌}
use control_system_adapter_o.Prelude.Text.{Text, codes, ends_with, drop_last, remove_prefix}
use control_system_adapter_o.Etree.{Etree}
use control_system_adapter_o.Etree.Laws.{etree_laws}
use control_system_adapter_o.Variable.Write.{root_slash}
use control_system_adapter_o.Directory.{DirectoryInfo, XmlDirectory, find_dir, is_found}
use control_system_adapter_o.Directory.Change.{changed, option_map, find_dir-change_dir}
use control_system_adapter_o.Directory.Write.{dir_exclude}
use control_system_adapter_o.Generator.MapFile.{
  Reading, exclude_dir, exclude_dir_found, exclude_entry, exclude_from,
}
use control_system_adapter_o.Generator.Place.{exclude-KeepsPlace}

ends_with-star : (t : Text) → ends_with (codes "/*") (t ++ codes "/*") ≡ true
unfolding ends_with
ends_with-star t = rw (reverse-append t (codes "/*")) refl

drop_last-star : (t : Text) → drop_last 2 (t ++ codes "/*") ≡ t
unfolding drop_last
drop_last-star t = rw (reverse-append t (codes "/*")) (reverse-reverse t)

abbrev pub mark : DirectoryInfo → DirectoryInfo
mark i = record i { exclude = some true }

-- What an exclude entry of a directory does: the directory is marked or, if there is none, counted.
pub record IsMarked (t : Text) (before after : Reading) : Type 0 where
  pub marked : find_dir after.tree t ≡ option_map (changed mark) (find_dir before.tree t)
  pub counted : after.excludes_skipped ≡ (
      if is_found (find_dir before.tree t)
      then before.excludes_skipped
      else before.excludes_skipped + 1)

module _ (L : Etree) where
  exclude_dir_found-IsMarked :
      (t : Text) (s : Reading) (o : Option XmlDirectory)
      → find_dir s.tree t ≡ o
      → IsMarked t s (exclude_dir_found L t s o)
  exclude_dir_found-IsMarked t s none h = record { marked = rw h refl; counted = rw h refl }
  exclude_dir_found-IsMarked t s (some d) h = record {
    marked = find_dir-change_dir mark (exclude-KeepsPlace L) t s.tree;
    counted = rw h refl;
  }

  exclude_from-IsMarked :
      (name : Text) (s : Reading)
      → IsMarked (root_slash ++ name) s (exclude_from L s (some (name ++ codes "/*")))
  unfolding exclude_dir
  exclude_from-IsMarked name s =
      rw (ends_with-star name, drop_last-star name)
        (exclude_dir_found-IsMarked (root_slash ++ name) s (find_dir s.tree (root_slash ++ name))
          refl)

  attrib-dir_exclude :
      (i : DirectoryInfo) (root : L.Element) (name : Text)
      → i.path ≡ root_slash ++ name
      → L.attrib (dir_exclude L i root) "sourceName" ≡ some (name ++ codes "/*")
  unfolding dir_exclude remove_prefix
  attrib-dir_exclude i root name h = rw h (simp etree_laws)

  -- The exclude entry that is written for a directory below the root, when it is read, marks the
  -- directory of that path as excluded for the next search, if the tree has one, and otherwise
  -- counts one more exclude entry that was skipped.
  pub exclude_entry-dir_exclude :
      (i : DirectoryInfo) (root : L.Element) (name : Text) (s : Reading)
      → i.path ≡ root_slash ++ name
      → IsMarked (root_slash ++ name) s (exclude_entry L (dir_exclude L i root) s)
  unfolding exclude_entry
  exclude_entry-dir_exclude i root name s h =
      rw (attrib-dir_exclude i root name h) (exclude_from-IsMarked name s)
