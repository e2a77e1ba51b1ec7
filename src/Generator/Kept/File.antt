-- ===== src/Generator/Kept/File.antt =====
-- What reading a map file keeps of the variable tree, whatever it holds.
use control_system_adapter_o.Prelude.{Bool, true, false, Option, none, some, if◌then◌else◌}
use control_system_adapter_o.Prelude.Text.{Text, codes, text_eq}
use control_system_adapter_o.Prelude.Result.{
  Result, ok, err, Run, done, raised, state, runtime_error,
}
use control_system_adapter_o.Etree.{Etree}
use control_system_adapter_o.Directory.{XmlDirectory, reset}
use control_system_adapter_o.Config.{Config}
use control_system_adapter_o.Config.Read.{read_config}
use control_system_adapter_o.Generator.{MapGenerator}
use control_system_adapter_o.Generator.MapFile.{
  none_skipped, with_tree, with_config, with_file, Skipped, Reading, read_entries, reset_tree,
  parse_tree_entries, parse_uamapping, parse_map_file,
}
use control_system_adapter_o.Generator.Kept.{IsStable, IsKept, read_entries-IsKept}

-- What holds of a tree, and what if there is none
abbrev pub HasKept : Type 0 → (XmlDirectory → Type 0) → Option XmlDirectory → Type 0
HasKept Z P none = Z
HasKept Z P (some d) = P d

module _ (L : Etree) (Z : Type 0) (P : XmlDirectory → Type 0) (stable : IsStable P) where
  parse_tree_entries-HasKept :
      (e : L.Element) (o : Option XmlDirectory) (g : MapGenerator)
      → HasKept Z P g.dir
      → HasKept Z P o
      → HasKept Z P ((state (parse_tree_entries L e o g)).0.dir)
  unfolding parse_tree_entries
  parse_tree_entries-HasKept e none g h k = h
  parse_tree_entries-HasKept e (some d) g h k =
      next (read_entries L e d) (read_entries-IsKept L P stable e d k)
    where
      next :
          (r : Run Reading)
          → IsKept L P stable (state r)
          → HasKept Z P ((state (with_tree L g r)).0.dir)
      next (done s) l = l
      next (raised x s) l = l

  with_config-HasKept :
      (e : L.Element) (g : MapGenerator) (r : Run Config)
      → HasKept Z P g.dir
      → HasKept Z P ((state (with_config L e g r)).0.dir)
  with_config-HasKept e g (done c) h =
      parse_tree_entries-HasKept e g.dir (record g { config = c }) h h
  with_config-HasKept e g (raised x c) h = h

  if-HasKept :
      (b : Bool) (r s : Run (MapGenerator × Skipped))
      → HasKept Z P ((state r).0.dir)
      → HasKept Z P ((state s).0.dir)
      → HasKept Z P ((state (if b then r else s)).0.dir)
  if-HasKept true r s h k = h
  if-HasKept false r s h k = k

  parse_uamapping-HasKept :
      (e : L.Element) (g : MapGenerator)
      → HasKept Z P g.dir
      → HasKept Z P ((state (parse_uamapping L e g)).0.dir)
  unfolding parse_uamapping
  parse_uamapping-HasKept e g h =
      if-HasKept (text_eq (L.tag e) (codes "uamapping"))
        (with_config L e g (read_config L e g.config))
        (raised
          (runtime_error
            "Failed to find uamapping tag. Not an ControlSystem-OPC-UA XML mapping file.")
          (g, none_skipped))
        (with_config-HasKept e g (read_config L e g.config) h) h

  reset_tree-HasKept : (g : MapGenerator) → HasKept Z P g.dir → HasKept Z P (reset_tree L g).dir
  unfolding reset_tree
  reset_tree-HasKept g h = next g.dir h
    where
      next :
          (o : Option XmlDirectory)
          → HasKept Z P o
          → HasKept Z P (elim o [ none ↦ none | some d ↦ some (reset d) ])
      next none k = k
      next (some d) k = stable.resets d k

  with_file-HasKept :
      (r : Result L.Element) (g : MapGenerator)
      → HasKept Z P g.dir
      → HasKept Z P ((state (with_file L r g)).0.dir)
  with_file-HasKept (ok e) g h = parse_uamapping-HasKept e g h
  with_file-HasKept (err x) g h = h

  -- What a change in place and a reset keep of a tree is kept of the generator's tree by
  -- `parseMapFile`, whatever it is given, and also when it raises an exception.
  pub parse_map_file-HasKept :
      (open_file : Text → Result L.Element) (input : Text) (g : MapGenerator)
      → HasKept Z P g.dir
      → HasKept Z P ((state (parse_map_file L open_file input g)).0.dir)
  unfolding parse_map_file
  parse_map_file-HasKept open_file input g h =
      with_file-HasKept (open_file input) (reset_tree L g) (reset_tree-HasKept g h)
