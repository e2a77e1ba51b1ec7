-- ===== src/Form/Window/Consistent/Steps.antt =====
-- Opening and loading a file.
use mathlib.Core.Path.{subst}
use control_system_adapter_o.Prelude.{
  ◌≡◌, refl, sym, Bool, true, false, ◌||◌, Option, none, some, if◌then◌else◌, Bool-cases, inl, inr,
}
use control_system_adapter_o.Prelude.Text.{Text, given}
use control_system_adapter_o.Prelude.Result.{
  Result, ok, err, runtime_error, Run, done, raised, state, ◌▷◌,
}
use control_system_adapter_o.Etree.{Etree}
use control_system_adapter_o.Directory.{XmlDirectory, is_found}
use control_system_adapter_o.Directory.SameTree.{SameTree}
use control_system_adapter_o.Generator.{MapGenerator, blank}
use control_system_adapter_o.Generator.Chimera.{new_generator}
use control_system_adapter_o.Generator.Kept.File.{HasKept}
use control_system_adapter_o.Generator.Laws.{
  IsRooted, parse_map_file-HasRooted, parse_chimera_tk-HasRooted,
}
use control_system_adapter_o.Generator.MapFile.{parse_map_file, Skipped}
use control_system_adapter_o.Form.Qt.{Qt}
use control_system_adapter_o.Form.View.{ViewDirectory, shown}
use control_system_adapter_o.Form.Window.{Window, fill_config}
use control_system_adapter_o.Form.Window.Files.{
  fill_tree, with_view, with_generator, create_map_generator, open_file, new_window,
}
use control_system_adapter_o.Form.Window.Histories.{
  add_loaded, apply_histories, with_loaded, show_loaded, failed, with_read, load_into,
  load_map_file,
}
use control_system_adapter_o.Form.Window.Synced.{
  AreSynced, Keeps, add_loaded-Keeps, fill_tree-shown,
}
use control_system_adapter_o.Form.Window.Consistent.{
  IsConsistent, AreConsistent, HasFitting, parse_map_file-SameTree, apply_histories-IsConsistent,
  keep_read-AreSynced,
}

module _ (Q : Qt) where
  if-IsConsistent :
      (b : Bool) (u v : Window Q)
      → IsConsistent Q u
      → IsConsistent Q v
      → IsConsistent Q (if b then u else v)
  if-IsConsistent true u v h k = h
  if-IsConsistent false u v h k = k

  -- Loading a map file
  added-IsConsistent :
      (g : MapGenerator) (r : Run (Window Q))
      → Keeps Q g r
      → HasFitting (some g)
      → IsConsistent Q (state (r ▷ (λ added. done (apply_histories Q added.tree added))))
  added-IsConsistent g (done w) h fits =
      apply_histories-IsConsistent Q w.tree w refl
        (subst (AreConsistent Q w.tree) (sym h.0) (h.1, fits))
  added-IsConsistent g (raised x w) h fits = subst (AreConsistent Q w.tree) (sym h.0) (h.1, fits)

  with_loaded-IsConsistent :
      (g : MapGenerator) (w : Window Q) (r : Result (ViewDirectory Q))
      → w.generator ≡ some g
      → HasFitting (some g)
      → fill_tree Q g.dir ≡ r
      → IsConsistent Q (state (with_loaded Q g w r))
  with_loaded-IsConsistent g w (err x) e fits h = rw e (tt, fits)
  with_loaded-IsConsistent g w (ok view) e fits h =
      added-IsConsistent g
        (add_loaded Q g.config.history_settings g (record w { tree = some view }))
        (add_loaded-Keeps Q g.config.history_settings g (record w { tree = some view })
          (e, fill_tree-shown Q g.dir view h))
        fits

  -- Without a tree that was read, the items are those from before.
  show_loaded-IsConsistent :
      (g : MapGenerator) (w : Window Q)
      → HasFitting (some g)
      → (is_found g.dir ≡ false → AreSynced Q w.tree (some g))
      → IsConsistent Q (state (show_loaded Q g w))
  unfolding show_loaded
  show_loaded-IsConsistent g w fits synced = elim (Bool-cases (is_found g.dir)) [
    | inl there ↦
        let filled = record w { generator = some g; fields = fill_config Q g.config w.fields } in
        rw there (with_loaded-IsConsistent g filled (fill_tree Q g.dir) refl fits refl)
    | inr absent ↦ rw absent (synced absent, fits)
  ]

  failed-IsConsistent :
      (old g : MapGenerator) (w : Window Q)
      → ((d : XmlDirectory) → old.dir ≡ some d → HasKept ⊥ (SameTree d) g.dir)
      → AreSynced Q w.tree (some old)
      → HasFitting (some g)
      → IsConsistent Q (failed Q g w)
  failed-IsConsistent old g w same synced fits =
      (keep_read-AreSynced Q old g w.tree same synced, fits)

  -- A tree does not go away.
  still_there :
      (old g : MapGenerator) (tree : Option (ViewDirectory Q))
      → ((d : XmlDirectory) → old.dir ≡ some d → HasKept ⊥ (SameTree d) g.dir)
      → AreSynced Q tree (some old)
      → is_found g.dir ≡ false
      → AreSynced Q tree (some g)
  still_there old g none same synced absent = tt
  still_there old g (some view) same synced absent =
      absurd (gone (shown Q view) g.dir absent (same (shown Q view) synced))
    where
      gone :
          (d : XmlDirectory) (o : Option XmlDirectory)
          → is_found o ≡ false
          → HasKept ⊥ (SameTree d) o
          → ⊥
      gone d none e h = h
      gone d (some k) e h = cc

  with_read-IsConsistent :
      (old : MapGenerator) (w : Window Q) (r : Run (MapGenerator × Skipped))
      → ((d : XmlDirectory) → old.dir ≡ some d → HasKept ⊥ (SameTree d) (state r).0.dir)
      → AreSynced Q w.tree (some old)
      → HasKept (Unit {0}) IsRooted (state r).0.dir
      → IsConsistent Q (state (with_read Q w r))
  with_read-IsConsistent old w (done (g, missed)) same synced fits =
      show_loaded-IsConsistent g w fits (still_there old g w.tree same synced)
  with_read-IsConsistent old w (raised (runtime_error m) (g, missed)) same synced fits =
      failed-IsConsistent old g w same synced fits
  with_read-IsConsistent old w (raised x (g, missed)) same synced fits =
      failed-IsConsistent old g w same synced fits

  load_into-IsConsistent :
      (L : Etree) (open_xml : Text → Result L.Element) (name : Text) (w : Window Q)
      (o : Option MapGenerator)
      → w.generator ≡ o
      → IsConsistent Q w
      → IsConsistent Q (state (load_into Q L open_xml name w o))
  load_into-IsConsistent L open_xml name w none e h = h
  load_into-IsConsistent L open_xml name w (some g) e h = elim (Bool-cases (given (some name))) [
    | inl chosen ↦
        let now = subst (AreConsistent Q w.tree) e h in
        rw chosen (
          with_read-IsConsistent g w (parse_map_file L open_xml name g)
            (λ d same. parse_map_file-SameTree L open_xml name g d same) now.0
            (parse_map_file-HasRooted L open_xml name g now.1))
    | inr empty ↦ rw empty h
  ]

  -- Opening an application file
  fits_with_tree :
      (b : Bool) (w : Window Q) (r : Run MapGenerator)
      → (b ≡ false → w.tree ≡ none)
      → HasFitting (some (state r))
      → IsConsistent Q (with_generator Q b w r)
  fits_with_tree true w (done g) empty fits = next (fill_tree Q g.dir) refl
    where
      next :
          (r : Result (ViewDirectory Q))
          → fill_tree Q g.dir ≡ r
          → IsConsistent Q (with_view Q g w r)
      next (ok view) h = (fill_tree-shown Q g.dir view h, fits)
      next (err x) h = (tt, tt)
  fits_with_tree false w (done g) empty fits = rw (empty refl) (tt, fits)
  fits_with_tree b w (raised x g) empty fits = (tt, tt)

  module _ (L : Etree) (open_xml : Text → Result L.Element) where
    new_generator-HasFitting :
        (file : Option Text) → HasFitting (some (state (new_generator L open_xml file)))
    unfolding new_generator
    new_generator-HasFitting file = elim (Bool-cases (given file)) [
      | inl there ↦ rw there (parse_chimera_tk-HasRooted L open_xml (blank file) tt)
      | inr absent ↦ rw absent tt
    ]

    create_map_generator-IsConsistent :
        (file : Option Text) (w : Window Q)
        → (given file ≡ false → w.tree ≡ none)
        → IsConsistent Q (create_map_generator Q L open_xml file w)
    unfolding create_map_generator
    create_map_generator-IsConsistent file w empty =
        fits_with_tree (given file) w (new_generator L open_xml file) empty
          (new_generator-HasFitting file)

    chosen-IsConsistent :
        (name : Text) (w : Window Q)
        → IsConsistent Q w
        → IsConsistent Q
            (if given (some name) then create_map_generator Q L open_xml (some name) w else w)
    chosen-IsConsistent name w h = elim (Bool-cases (given (some name))) [
      | inl chosen ↦ rw chosen (create_map_generator-IsConsistent (some name) w (λ absent. cc))
      | inr empty ↦ rw empty h
    ]

    pub open_file-IsConsistent :
        (from_menu yes_reply : Bool) (name : Text) (w : Window Q)
        → (yes_reply || from_menu ≡ false → w.tree ≡ none)
        → IsConsistent Q w
        → IsConsistent Q (open_file Q L open_xml from_menu yes_reply name w)
    unfolding open_file
    open_file-IsConsistent from_menu yes_reply name w empty h =
        elim (Bool-cases (yes_reply || from_menu)) [
          | inl asked ↦ rw asked (chosen-IsConsistent name w h)
          | inr without ↦
              rw without (create_map_generator-IsConsistent none w (λ absent. empty without))
        ]

    pub load_map_file-IsConsistent :
        (name : Text) (w : Window Q)
        → IsConsistent Q w
        → IsConsistent Q (state (load_map_file Q L open_xml name w))
    unfolding load_map_file
    load_map_file-IsConsistent name w h =
        load_into-IsConsistent L open_xml name w w.generator refl h

    pub new_window-IsConsistent :
        (input : Option Text) (no_input yes_reply : Bool) (name : Text) (w : Window Q)
        → w.tree ≡ none
        → w.generator ≡ none
        → IsConsistent Q (new_window Q L open_xml input no_input yes_reply name w)
    unfolding new_window
    new_window-IsConsistent input no_input yes_reply name w empty fresh =
        if-IsConsistent (given input) (create_map_generator Q L open_xml input w)
          (if no_input
            then record w { generator = some (blank none) }
            else open_file Q L open_xml false yes_reply name w)
          (create_map_generator-IsConsistent input w (λ absent. empty))
          (if-IsConsistent no_input (record w { generator = some (blank none) })
            (open_file Q L open_xml false yes_reply name w) (rw empty (tt, tt))
            (open_file-IsConsistent false yes_reply name w (λ without. empty)
              (rw (empty, fresh) (tt, tt))))
