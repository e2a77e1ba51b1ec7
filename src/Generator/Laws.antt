-- ===== src/Generator/Laws.antt =====
-- What reading the two files keeps of the variable tree, whatever they hold.
use control_system_adapter_o.Prelude.{suc, ◌≡◌, refl, Bool, true, false, Option, some, []}
use control_system_adapter_o.Prelude.Text.{Text, codes, text_of}
use control_system_adapter_o.Prelude.Result.{Result, ok, err, done, state, with_value}
use control_system_adapter_o.Etree.{Etree}
use control_system_adapter_o.Directory.{XmlDirectory}
use control_system_adapter_o.Generator.{MapGenerator}
use control_system_adapter_o.Generator.Chimera.{
  is_application, parse_root, named, parse_tree, parse_chimera_tk,
}
use control_system_adapter_o.Directory.Invariant.{
  IsWellFormed, new_directory-IsWellFormed, reset-IsWellFormed, change_dir-IsWellFormed,
  change_var-IsWellFormed,
}
use control_system_adapter_o.Generator.MapFile.{parse_map_file}
use control_system_adapter_o.Generator.Kept.{IsStable}
use control_system_adapter_o.Generator.Kept.File.{HasKept, parse_map_file-HasKept}

abbrev pub IsRooted : XmlDirectory → Type 0
IsRooted d = IsWellFormed [] 0 d

IsRooted-IsStable : IsStable IsRooted
IsRooted-IsStable = record {
  dir = λ f keeps t d h. change_dir-IsWellFormed f keeps t [] 0 d h;
  var = λ f keeps t d h. change_var-IsWellFormed f keeps t [] 0 d h;
  resets = λ d h. reset-IsWellFormed [] 0 d h;
}

module _ (L : Etree) where
  abbrev pub HasRooted : Option XmlDirectory → Type 0
  HasRooted = HasKept (Unit {0}) IsRooted

  -- Whatever `parseMapFile` is given, and also when it raises an exception, a variable tree in which
  -- each path is the parent's path, a slash and the name, each level is one more than the parent's,
  -- and each full name is the directory's path, a slash and the variable's name, stays such a tree.
  pub parse_map_file-HasRooted :
      (open_file : Text → Result L.Element) (input : Text) (g : MapGenerator)
      → HasRooted g.dir
      → HasRooted ((state (parse_map_file L open_file input g)).0.dir)
  parse_map_file-HasRooted = parse_map_file-HasKept L (Unit {0}) IsRooted IsRooted-IsStable

  module _ (open_file : Text → Result L.Element) where
    parse_root-IsRooted :
        (e : L.Element) (d : XmlDirectory) → parse_root L open_file e ≡ ok d → IsRooted d
    unfolding parse_root
    parse_root-IsRooted e d h =
        new_directory-IsWellFormed L (suc (L.height e)) (codes "root") e 0 [] d h

    with_root-HasRooted :
        (e : L.Element) (g : MapGenerator) (r : Result XmlDirectory)
        → parse_root L open_file e ≡ r
        → HasRooted g.dir
        → HasRooted (state (with_value r g (λ d. done (record g { dir = some d })))).dir
    with_root-HasRooted e g (ok d) h k = parse_root-IsRooted e d h
    with_root-HasRooted e g (err x) h k = k

    parse_tree-HasRooted :
        (b : Bool) (e : L.Element) (g : MapGenerator)
        → HasRooted g.dir
        → HasRooted (state (parse_tree L open_file b e g)).dir
    unfolding parse_tree named
    parse_tree-HasRooted false e g h = h
    parse_tree-HasRooted true e g h =
        with_root-HasRooted e (named L open_file e g) (parse_root L open_file e) refl h

    with_tag-HasRooted :
        (r : Result Bool) (e : L.Element) (g : MapGenerator)
        → HasRooted g.dir
        → HasRooted (state (with_value r g (λ b. parse_tree L open_file b e g))).dir
    with_tag-HasRooted (ok b) e g h = parse_tree-HasRooted b e g h
    with_tag-HasRooted (err x) e g h = h

    with_input-HasRooted :
        (r : Result L.Element) (g : MapGenerator)
        → HasRooted g.dir
        → HasRooted
            (state (
              with_value r g (λ e.
                with_value (is_application (L.tag e)) g (λ b. parse_tree L open_file b e g)))).dir
    with_input-HasRooted (ok e) g h = with_tag-HasRooted (is_application (L.tag e)) e g h
    with_input-HasRooted (err x) g h = h

    -- If the tree of a generator, where it has one, has paths, levels and full names that fit the
    -- nesting, the same holds after `parseChimeraTK`, which reads a new tree or raises an exception.
    pub parse_chimera_tk-HasRooted :
        (g : MapGenerator)
        → HasRooted g.dir
        → HasRooted (state (parse_chimera_tk L open_file g)).dir
    unfolding parse_chimera_tk
    parse_chimera_tk-HasRooted g h = with_input-HasRooted (open_file (text_of g.input_file)) g h
