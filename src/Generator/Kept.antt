-- ===== src/Generator/Kept.antt =====
-- The entries of a map file only change directories and variables in their place.
pub mod File
use control_system_adapter_o.Prelude.{
  ◌≡◌, refl, Bool, true, false, Option, none, some, List, [], ◌∷◌, if◌then◌else◌,
}
use control_system_adapter_o.Prelude.Text.{Text, codes, ends_with}
use control_system_adapter_o.Prelude.Result.{Run, done, raised, state, ◌▷◌}
use control_system_adapter_o.Etree.{Etree}
use control_system_adapter_o.Variable.{XmlVar}
use control_system_adapter_o.Variable.Read.{read_pv}
use control_system_adapter_o.Directory.{
  DirectoryInfo, XmlDirectory, info, find_dir, change_dir, change_var, reset,
}
use control_system_adapter_o.Directory.Invariant.{KeepsPlace, KeepsName}
use control_system_adapter_o.Generator.Folder.{Placing, read_folder}
use control_system_adapter_o.Generator.MapFile.{
  folder_found, describe_found, folder_named, folder_from, pv_found, pv_from, exclude_dir_found,
  exclude_var_found, exclude_from, Reading, folder_change, folder_at, describe_at,
  folder_without_source, folder_entry, pv_at, pv_entry, exclude_dir, exclude_var, exclude_entry,
  folder_entries, pv_entries, exclude_entries, read_entries, raise_after,
}
use control_system_adapter_o.Generator.Place.{
  folder_change-KeepsPlace, read_pv-KeepsName, description-KeepsPlace, exclude-KeepsPlace,
  exclude-KeepsName,
}

-- What every change of a directory or a variable in its place keeps of a tree
pub record IsStable (P : XmlDirectory → Type 0) : Type 0 where
  pub dir :
      (f : DirectoryInfo → DirectoryInfo)
      → KeepsPlace f
      → (t : Text) (d : XmlDirectory) → P d
      → P (change_dir f t d)
  pub var :
      (f : XmlVar → XmlVar)
      → KeepsName f
      → (t : Text) (d : XmlDirectory) → P d
      → P (change_var f t d)
  pub resets : (d : XmlDirectory) → P d → P (reset d)

module _ (L : Etree) (P : XmlDirectory → Type 0) (stable : IsStable P) where
  state-raise_after : (r : Run Placing) (s : Reading) → state (raise_after r s) ≡ s
  state-raise_after (done p) s = refl
  state-raise_after (raised e p) s = refl

  abbrev pub IsKept : Reading → Type 0
  IsKept s = P s.tree

  folder_found-IsKept :
      (e : L.Element) (t : Text) (s : Reading) (o : Option XmlDirectory)
      → IsKept s
      → IsKept (state (folder_found L e t s o))
  folder_found-IsKept e t s none h = h
  folder_found-IsKept e t s (some d) h =
      rw
        (state-raise_after (read_folder L e (info d))
          (record s { tree = change_dir (folder_change L e) t s.tree }))
        (stable.dir (folder_change L e) (folder_change-KeepsPlace L e) t s.tree h)

  describe_found-IsKept :
      (description : Option L.Element) (t : Text) (s : Reading) (o : Option XmlDirectory)
      → IsKept s
      → IsKept (describe_found L description t s o)
  describe_found-IsKept description t s none h = h
  describe_found-IsKept none t s (some d) h = h
  describe_found-IsKept (some e) t s (some d) h =
      stable.dir (λ i. record i { new_description = L.text e })
        (description-KeepsPlace L (L.text e)) t s.tree h

  folder_named-IsKept :
      (e : L.Element) (s : Reading) (o : Option Text)
      → IsKept s
      → IsKept (state (folder_named L e s o))
  unfolding describe_at
  folder_named-IsKept e s none h = h
  folder_named-IsKept e s (some name) h =
      describe_found-IsKept (L.find e "description" (L.nsmap e)) _ s (find_dir s.tree _) h

  folder_from-IsKept :
      (e : L.Element) (s : Reading) (o : Option Text)
      → IsKept s
      → IsKept (state (folder_from L e s o))
  unfolding folder_at folder_without_source
  folder_from-IsKept e s none h = folder_named-IsKept e s _ h
  folder_from-IsKept e s (some source) h = folder_found-IsKept e _ s _ h

  then-IsKept :
      (r : Run Reading) (f : Reading → Run Reading)
      → IsKept (state r)
      → ((s : Reading) → IsKept s → IsKept (state (f s)))
      → IsKept (state (r ▷ f))
  then-IsKept (done s) f h k = k s h
  then-IsKept (raised x s) f h k = h

  folder_entries-IsKept :
      (es : List L.Element) (s : Reading) → IsKept s → IsKept (state (folder_entries L es s))
  unfolding folder_entries folder_entry
  folder_entries-IsKept [] s h = h
  folder_entries-IsKept (e ∷ es) s h =
      then-IsKept (folder_from L e s (L.attrib e "sourceName")) (folder_entries L es)
        (folder_from-IsKept e s (L.attrib e "sourceName") h) (λ u k. folder_entries-IsKept es u k)

  pv_found-IsKept :
      (e : L.Element) (t : Text) (s : Reading) (o : Option XmlVar)
      → IsKept s
      → IsKept (pv_found L e t s o)
  pv_found-IsKept e t s none h = h
  pv_found-IsKept e t s (some v) h = stable.var (read_pv L e) (read_pv-KeepsName L e) t s.tree h

  pv_from-IsKept :
      (e : L.Element) (s : Reading) (o : Option Text) → IsKept s → IsKept (pv_from L e s o)
  unfolding pv_at
  pv_from-IsKept e s none h = h
  pv_from-IsKept e s (some source) h = pv_found-IsKept e _ s _ h

  pv_entries-IsKept : (es : List L.Element) (s : Reading) → IsKept s → IsKept (pv_entries L es s)
  unfolding pv_entries pv_entry
  pv_entries-IsKept [] s h = h
  pv_entries-IsKept (e ∷ es) s h =
      pv_entries-IsKept es (pv_entry L e s) (pv_from-IsKept e s (L.attrib e "sourceName") h)

  exclude_dir-IsKept :
      (t : Text) (s : Reading) (o : Option XmlDirectory)
      → IsKept s
      → IsKept (exclude_dir_found L t s o)
  exclude_dir-IsKept t s none h = h
  exclude_dir-IsKept t s (some d) h =
      stable.dir (λ i. record i { exclude = some true }) (exclude-KeepsPlace L) t s.tree h

  exclude_var-IsKept :
      (t : Text) (s : Reading) (o : Option XmlVar) → IsKept s → IsKept (exclude_var_found L t s o)
  exclude_var-IsKept t s none h = h
  exclude_var-IsKept t s (some v) h =
      stable.var (λ v. record v { exclude = some true }) (exclude-KeepsName L) t s.tree h

  if-IsKept : (b : Bool) (r s : Reading) → IsKept r → IsKept s → IsKept (if b then r else s)
  if-IsKept true r s h k = h
  if-IsKept false r s h k = k

  exclude_from-IsKept : (s : Reading) (o : Option Text) → IsKept s → IsKept (exclude_from L s o)
  unfolding exclude_dir exclude_var
  exclude_from-IsKept s none h = h
  exclude_from-IsKept s (some source) h =
      if-IsKept (ends_with (codes "/*") source) _ _ (exclude_dir-IsKept _ s _ h)
        (exclude_var-IsKept _ s _ h)

  exclude_entries-IsKept :
      (es : List L.Element) (s : Reading) → IsKept s → IsKept (exclude_entries L es s)
  unfolding exclude_entries exclude_entry
  exclude_entries-IsKept [] s h = h
  exclude_entries-IsKept (e ∷ es) s h =
      exclude_entries-IsKept es (exclude_entry L e s)
        (exclude_from-IsKept s (L.attrib e "sourceName") h)

  pub read_entries-IsKept :
      (e : L.Element) (d : XmlDirectory) → P d → IsKept (state (read_entries L e d))
  unfolding read_entries
  read_entries-IsKept e d h =
      then-IsKept
        (folder_entries L (L.findall e "folder" (L.nsmap e))
          (record { tree = d; folders_skipped = 0; pvs_skipped = 0; excludes_skipped = 0 }))
        (λ s. done (
          exclude_entries L (L.findall e "exclude" (L.nsmap e))
            (pv_entries L (L.findall e "process_variable" (L.nsmap e)) s)))
        (folder_entries-IsKept (L.findall e "folder" (L.nsmap e))
          (record { tree = d; folders_skipped = 0; pvs_skipped = 0; excludes_skipped = 0 }) h)
        (λ s k.
          exclude_entries-IsKept (L.findall e "exclude" (L.nsmap e))
            (pv_entries L (L.findall e "process_variable" (L.nsmap e)) s)
            (pv_entries-IsKept (L.findall e "process_variable" (L.nsmap e)) s k))
