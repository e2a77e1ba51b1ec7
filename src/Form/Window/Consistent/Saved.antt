-- ===== src/Form/Window/Consistent/Saved.antt =====
-- What saving leaves of the generator.
use control_system_adapter_o.Prelude.{
  ◌≡◌, refl, Bool, true, false, Option, none, some, if◌then◌else◌,
}
use control_system_adapter_o.Prelude.Text.{Text, is_none}
use control_system_adapter_o.Prelude.Result.{
  Result, ok, err, runtime_error, type_error, ◌>>=◌, Run, done, raised,
}
use control_system_adapter_o.Etree.{Etree}
use control_system_adapter_o.Generator.{MapGenerator}
use control_system_adapter_o.Generator.MapFile.{save}
use control_system_adapter_o.Form.Window.Files.{
  Saved, left, reported, save_now, enabled_save, save_chosen, save_file, save_file_as,
}

-- The generator keeps its tree.
abbrev pub LeavesDir : MapGenerator → {E : Type 0} → Run (Saved E) → Type 0
LeavesDir g (done s) = s.generator.dir ≡ g.dir
LeavesDir g (raised x s) = s.generator.dir ≡ g.dir

module _ (L : Etree) (g : MapGenerator) where
  reported-LeavesDir :
      (k : MapGenerator) (b : Bool) (r : Result L.Element)
      → k.dir ≡ g.dir
      → LeavesDir g (reported L k b r)
  reported-LeavesDir k b (ok e) h = h
  reported-LeavesDir k b (err (runtime_error m)) h = h
  reported-LeavesDir k b (err x) h = h

  enabled_save-LeavesDir :
      (r : Run (Saved L.Element)) → LeavesDir g r → LeavesDir g (enabled_save L r)
  enabled_save-LeavesDir (done s) h = h
  enabled_save-LeavesDir (raised x s) h = h

  save_chosen-LeavesDir :
      (a : Result (Unit {0})) (o : Option Text) (b : Bool) → LeavesDir g (save_chosen L a o g b)
  unfolding save_now
  save_chosen-LeavesDir a none b = refl
  save_chosen-LeavesDir a (some name) b = reported-LeavesDir _ b _ refl

  if-LeavesDir :
      (b : Bool) (r s : Run (Saved L.Element))
      → LeavesDir g r
      → LeavesDir g s
      → LeavesDir g (if b then r else s)
  if-LeavesDir true r s h k = h
  if-LeavesDir false r s h k = k

  pub save_file_as-LeavesDir :
      (a : Result (Unit {0})) (o : Option Text) (b : Bool) → LeavesDir g (save_file_as L a o g b)
  unfolding save_file_as
  save_file_as-LeavesDir a o b =
      if-LeavesDir (is_none g.config.application_name) (raised type_error (left L g b none))
        (enabled_save L (save_chosen L a o g b)) refl
        (enabled_save-LeavesDir (save_chosen L a o g b) (save_chosen-LeavesDir a o b))

  pub save_file-LeavesDir :
      (a : Result (Unit {0})) (o : Option Text) (b : Bool) → LeavesDir g (save_file L a o g b)
  unfolding save_file save_now
  save_file-LeavesDir a o b =
      if-LeavesDir (is_none g.output_file) (save_file_as L a o g b) (save_now L a g b)
        (save_file_as-LeavesDir a o b)
        (reported-LeavesDir g b (save L g >>= λ root. a >>= λ u. ok root) refl)
