-- ===== src/Form/Window/Consistent.antt =====
-- The objects behind the window: the items of the tree stand for those of the generator, whose names,
-- paths and levels fit the nesting.
pub mod Steps
pub mod Saved
pub mod Session
use mathlib.Core.Path.{subst}
use control_system_adapter_o.Prelude.{
  ◌≡◌, refl, sym, ap, ◌∙◌, Bool, true, false, Option, none, some, List, [], ◌∷◌,
}
use control_system_adapter_o.Prelude.Text.{Text, given}
use control_system_adapter_o.Prelude.Result.{
  Result, ok, err, runtime_error, Run, done, raised, state, ◌▷◌,
}
use control_system_adapter_o.Etree.{Etree}
use control_system_adapter_o.Directory.{XmlDirectory, is_found}
use control_system_adapter_o.Directory.SameTree.{
  SameTree, SameTree-refl, SameTree-trans, change_dir-SameTree, change_var-SameTree, reset-SameTree,
  IsWellFormed-SameTree,
}
use control_system_adapter_o.Generator.{MapGenerator, blank}
use control_system_adapter_o.Generator.Chimera.{new_generator}
use control_system_adapter_o.Generator.Kept.{IsStable}
use control_system_adapter_o.Generator.Kept.File.{HasKept, parse_map_file-HasKept}
use control_system_adapter_o.Generator.Laws.{IsRooted, HasRooted, parse_chimera_tk-HasRooted}
use control_system_adapter_o.Generator.MapFile.{parse_map_file, Skipped}
use control_system_adapter_o.Form.Qt.{Qt}
use control_system_adapter_o.Form.View.{ViewDirectory, shown, with_objects}
use control_system_adapter_o.Form.View.Same.{Alike, shown-with_objects}
use control_system_adapter_o.Form.View.Same.Gestures.{update_histories-Alike}
use control_system_adapter_o.Form.View.History.{update_histories}
use control_system_adapter_o.Form.Window.{Window}
use control_system_adapter_o.Form.Window.Histories.{
  add_loaded, with_dir, put_view, apply_histories, keep_read, failed,
}
use control_system_adapter_o.Form.Window.Synced.{AreSynced, Keeps}

-- The trees of the same nesting, names, paths and levels as a given one
SameTree-IsStable : (d : XmlDirectory) → IsStable (SameTree d)
SameTree-IsStable d = record {
  dir = λ f keeps t e h. SameTree-trans d e _ h (change_dir-SameTree f keeps t e);
  var = λ f keeps t e h. SameTree-trans d e _ h (change_var-SameTree f keeps t e);
  resets = λ e h. SameTree-trans d e _ h (reset-SameTree e);
}

-- Reading a map file, and failing to, keeps the nesting, the names, paths and levels.
pub parse_map_file-SameTree :
    (L : Etree) (open_file : Text → Result L.Element) (input : Text) (g : MapGenerator)
    (d : XmlDirectory)
    → g.dir ≡ some d
    → HasKept ⊥ (SameTree d) (state (parse_map_file L open_file input g)).0.dir
parse_map_file-SameTree L open_file input g d h =
    parse_map_file-HasKept L ⊥ (SameTree d) (SameTree-IsStable d) open_file input g
      (rw h (SameTree-refl d))

abbrev pub HasFitting : Option MapGenerator → Type 0
HasFitting none = Unit {0}
HasFitting (some g) = HasKept (Unit {0}) IsRooted g.dir

module _ (Q : Qt) where
  -- The tree is empty, or its items stand for exactly the objects of the generator's tree; there, if
  -- there is one, each path is the parent's path, a slash and the name, each level is one more than the
  -- parent's, and each full name is the directory's path, a slash and the variable's name.
  abbrev pub AreConsistent : Option (ViewDirectory Q) → Option MapGenerator → Type 0
  AreConsistent tree generator = AreSynced Q tree generator × HasFitting generator

  abbrev pub IsConsistent : Window Q → Type 0
  IsConsistent w = AreConsistent w.tree w.generator

  -- A change of the settings and files of the generator
  pub same_dir-AreConsistent :
      (tree : Option (ViewDirectory Q)) (g k : MapGenerator)
      → k.dir ≡ g.dir
      → AreConsistent tree (some g)
      → AreConsistent tree (some k)
  same_dir-AreConsistent none g k e h = (tt, rw e h.1)
  same_dir-AreConsistent (some view) g k e h = (e ∙ h.0, rw e h.1)

  -- A change of the items that keeps nesting, names, paths and levels
  pub with_dir-AreConsistent :
      (old new : ViewDirectory Q)
      → Alike Q old new
      → (o : Option MapGenerator) → AreConsistent (some old) o
      → AreConsistent (some new) (with_dir Q (shown Q new) o)
  with_dir-AreConsistent old new alike none h = absurd h.0
  with_dir-AreConsistent old new alike (some g) h = (
    refl,
    IsWellFormed-SameTree [] 0 (shown Q old) (shown Q new) alike
        (subst (HasKept (Unit {0}) IsRooted) h.0 h.1),
  )

  pub put_view-IsConsistent :
      (old new : ViewDirectory Q)
      → Alike Q old new
      → (w : Window Q) → w.tree ≡ some old
      → IsConsistent w
      → IsConsistent (put_view Q new w)
  unfolding put_view
  put_view-IsConsistent old new alike w e h =
      with_dir-AreConsistent old new alike w.generator
        (subst (λ t. AreConsistent t w.generator) e h)

  pub apply_histories-IsConsistent :
      (o : Option (ViewDirectory Q)) (w : Window Q)
      → w.tree ≡ o
      → IsConsistent w
      → IsConsistent (apply_histories Q o w)
  apply_histories-IsConsistent none w e h = h
  apply_histories-IsConsistent (some view) w e h =
      put_view-IsConsistent view (update_histories Q view) (update_histories-Alike Q view) w e h

  -- Behind an exception while a map file is read, the items take the objects that were read.
  pub keep_read-AreSynced :
      (g k : MapGenerator) (tree : Option (ViewDirectory Q))
      → ((d : XmlDirectory) → g.dir ≡ some d → HasKept ⊥ (SameTree d) k.dir)
      → AreSynced Q tree (some g)
      → AreSynced Q (keep_read Q k tree) (some k)
  keep_read-AreSynced g k none same h = tt
  keep_read-AreSynced g k (some view) same h = next k.dir refl (same (shown Q view) h)
    where
      next :
          (o : Option XmlDirectory)
          → k.dir ≡ o
          → HasKept ⊥ (SameTree (shown Q view)) o
          → AreSynced Q
              (elim o [ none ↦ some view | some d ↦ some (with_objects Q view d) ])
              (some k)
      next none e alike = absurd alike
      next (some d) e alike = e ∙ ap some (sym (shown-with_objects Q view d alike))
