-- ===== src/Generator/Place.antt =====
-- The entries of a map file leave names, paths and levels alone.
use control_system_adapter_o.Prelude.{
  ◌≡◌, refl, Bool, true, false, not, ◌&&◌, Option, some, arith, if◌then◌else◌,
}
use control_system_adapter_o.Prelude.Text.{Text}
use control_system_adapter_o.Prelude.Result.{Run, done, raised, state, ◌▷◌, opt_or_old}
use control_system_adapter_o.Etree.{Etree}
use control_system_adapter_o.Variable.Write.{root_slash}
use control_system_adapter_o.Variable.Read.{read_pv, settle_root}
use control_system_adapter_o.Directory.{DirectoryInfo}
use control_system_adapter_o.Directory.Invariant.{KeepsPlace, KeepsName}
use control_system_adapter_o.Generator.Folder.{
  Placing, read_folder, place_folder, place_name, rename, place_root, place_destination, has,
  text_in, describe_folder,
}
use control_system_adapter_o.Generator.MapFile.{folder_change}

module _ (L : Etree) where
  -- The place of a directory under change
  pub record Same (i : DirectoryInfo) (p : Placing) : Type 0 where
    path : p.at.path ≡ i.path
    name : p.at.name ≡ i.name
    level : p.at.hierarchy_level ≡ i.hierarchy_level

  place_name-Same :
      (folder : L.Element) (name : Option L.Element) (i : DirectoryInfo) (p : Placing)
      → Same i p
      → Same i (state (place_name L folder name p))
  unfolding place_name rename
  place_name-Same folder name i p h = ground arith

  place_destination-Same :
      (d : Option Text) (i : DirectoryInfo) (p : Placing)
      → Same i p
      → Same i (place_destination d p)
  unfolding place_destination
  place_destination-Same d i p h = ground arith

  place_root-Same :
      (i : DirectoryInfo) (r : Run Placing)
      → Same i (state r)
      → Same i (state (r ▷ (λ p. done (place_root p))))
  unfolding place_root
  place_root-Same i (done p) h = ground arith
  place_root-Same i (raised e p) h = h

  place_folder-Same :
      (folder : L.Element) (description destination name : Option L.Element) (i j : DirectoryInfo)
      → j.path ≡ i.path
      → j.name ≡ i.name
      → j.hierarchy_level ≡ i.hierarchy_level
      → Same i (state (place_folder L folder description destination name j))
  unfolding place_folder
  place_folder-Same folder description destination name i j p n l =
      let start : Placing = record {
        at = record j {
          new_description = opt_or_old (text_in L folder description) j.new_description;
        };
        tmp_path = root_slash;
      } in
      place_root-Same i
        (place_name L folder name (place_destination (text_in L folder destination) start))
        (place_name-Same folder name i (place_destination (text_in L folder destination) start) (
          place_destination-Same (text_in L folder destination) i start
            (record { path = p; name = n; level = l })))

  plain-Same :
      (b : Bool) (i : DirectoryInfo) (r s : Run Placing)
      → Same i (state r)
      → Same i (state s)
      → Same i (state (if b then r else s))
  plain-Same true i r s h k = h
  plain-Same false i r s h k = k

  read_folder-Same :
      (folder : L.Element) (i : DirectoryInfo) → Same i (state (read_folder L folder i))
  unfolding read_folder describe_folder
  read_folder-Same folder i =
      let name = L.find folder "name" (L.nsmap folder) in
      let destination = L.find folder "destination" (L.nsmap folder) in
      let description = L.find folder "description" (L.nsmap folder) in
      let i1 = describe_folder L folder (L.attrib folder "history") i in
      plain-Same
        (not (has L folder name)
          && (not (has L folder destination) && not (has L folder description)))
        i (done (record { at = i1; tmp_path = root_slash }))
        (place_folder L folder description destination name i1)
        (record { path = refl; name = refl; level = refl })
        (place_folder-Same folder description destination name i i1 refl refl refl)

  pub folder_change-KeepsPlace : (folder : L.Element) → KeepsPlace (folder_change L folder)
  unfolding folder_change
  folder_change-KeepsPlace folder = record {
    path = λ i. (read_folder-Same folder i).path;
    name = λ i. (read_folder-Same folder i).name;
    level = λ i. (read_folder-Same folder i).level;
  }

  pub read_pv-KeepsName : (pv : L.Element) → KeepsName (read_pv L pv)
  unfolding read_pv settle_root
  read_pv-KeepsName pv = record { name = λ v. ground arith; full_name = λ v. ground arith }

  pub description-KeepsPlace :
      (t : Option Text) → KeepsPlace (λ i. record i { new_description = t })
  description-KeepsPlace t = record { path = λ i. refl; name = λ i. refl; level = λ i. refl }

  pub exclude-KeepsPlace : KeepsPlace (λ i. record i { exclude = some true })
  exclude-KeepsPlace = record { path = λ i. refl; name = λ i. refl; level = λ i. refl }

  pub exclude-KeepsName : KeepsName (λ v. record v { exclude = some true })
  exclude-KeepsName = record { name = λ v. refl; full_name = λ v. refl }
