-- ===== src/Generator/Folder.antt =====
-- The part of `MapGenerator.parseMapFile` that reads a folder entry with a source name into its directory.
use control_system_adapter_o.Prelude.{
  Bool, true, false, not, ◌&&◌, Option, none, some, ◌++◌, if◌then◌else◌,
}
use control_system_adapter_o.Prelude.Text.{
  Text, codes, text_eq, opt_eq, remove_prefix, remove_suffix, is_none,
}
use control_system_adapter_o.Prelude.Result.{Run, done, raised, type_error, ◌▷◌, opt_or_old}
use control_system_adapter_o.Etree.{Etree}
use control_system_adapter_o.Variable.Write.{root_slash}
use control_system_adapter_o.Directory.{DirectoryInfo}

-- The path of the parent directory below the root, as it is compared with the destination
unfoldable pub own_destination : DirectoryInfo → Text
unfolding remove_prefix remove_suffix
own_destination i =
    remove_suffix (codes "/")
      (remove_suffix i.name (remove_prefix (codes "/") (remove_prefix (codes "/root") i.path)))

-- A directory under change, with the local variable `tmpPath`
pub record Placing : Type 0 where
  pub at : DirectoryInfo
  pub tmp_path : Text

unfoldable pub place_destination : Option Text → Placing → Placing
unfolding text_eq own_destination
place_destination none p = p
place_destination (some d) p = record {
  at =
      if text_eq (own_destination p.at) d
      then p.at
      else record p.at { new_destination = some (root_slash ++ d) };
  tmp_path = root_slash ++ d;
}

-- Behind a name that differs; a name element without text gives a `TypeError`.
unfoldable pub rename : Option Text → Placing → Run Placing
unfolding remove_suffix
rename none p = raised type_error (record p { at = record p.at { new_name = none } })
rename (some n) p = done (record {
  at = record p.at { new_name = some n };
  tmp_path = remove_suffix (codes "/") p.tmp_path ++ (codes "/" ++ n);
})

-- `if newDestination == None and tmpPath != path`
unfoldable pub place_root : Placing → Placing
unfolding text_eq
place_root p =
    if is_none p.at.new_destination && not (text_eq p.tmp_path p.at.path)
    then record p { at = record p.at { new_destination = some (codes "/root") } }
    else p

module _ (L : Etree) (folder : L.Element) where
  -- `folder.find(tag)` is not `None`
  abbrev pub has : Option L.Element → Bool
  has none = false
  has (some _) = true

  -- the text of a child that may be missing
  abbrev pub text_in : Option L.Element → Option Text
  text_in none = none
  text_in (some e) = L.text e

  unfoldable pub place_name : Option L.Element → Placing → Run Placing
  unfolding rename opt_eq
  place_name none p = done p
  place_name (some e) p = if opt_eq (some p.at.name) (L.text e) then done p else rename (L.text e) p

  unfoldable pub describe_folder : Option Text → DirectoryInfo → DirectoryInfo
  describe_folder history i = record i { historizing = opt_or_old history i.historizing }

  unfoldable pub place_folder :
      Option L.Element → Option L.Element → Option L.Element → DirectoryInfo → Run Placing
  unfolding place_destination place_name place_root
  place_folder description destination name i =
      (place_name name (
        place_destination (text_in destination) (record {
          at = record i { new_description = opt_or_old (text_in description) i.new_description };
          tmp_path = root_slash;
        })))
      ▷ (λ p. done (place_root p))

  -- The folder is plain if it only sets the history.
  unfoldable pub read_folder : DirectoryInfo → Run Placing
  unfolding describe_folder place_folder
  read_folder i =
      let name = L.find folder "name" (L.nsmap folder) in
      let destination = L.find folder "destination" (L.nsmap folder) in
      let description = L.find folder "description" (L.nsmap folder) in
      let i1 = describe_folder (L.attrib folder "history") i in
      if not (has name) && (not (has destination) && not (has description))
      then done (record { at = i1; tmp_path = root_slash })
      else place_folder description destination name i1
