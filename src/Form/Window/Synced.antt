-- ===== src/Form/Window/Synced.antt =====
-- The items of the tree stand for the objects of the generator.
use control_system_adapter_o.Prelude.{
  ◌≡◌, refl, sym, ap, ◌∙◌, Bool, true, false, Option, none, some, List, [], ◌∷◌, if◌then◌else◌,
}
use control_system_adapter_o.Prelude.Text.{Text, given}
use control_system_adapter_o.Prelude.Result.{Result, ok, err, Run, done, raised, state, ◌▷◌}
use control_system_adapter_o.Etree.{Etree}
use control_system_adapter_o.History.{HistorySetting}
use control_system_adapter_o.Directory.{XmlDirectory, is_found}
use control_system_adapter_o.Generator.{MapGenerator}
use control_system_adapter_o.Generator.Chimera.{new_generator}
use control_system_adapter_o.Form.Qt.{Qt, contains}
use control_system_adapter_o.Form.View.{ViewDirectory, shown}
use control_system_adapter_o.Form.View.Top.{Place, root_place}
use control_system_adapter_o.Form.View.Same.Top.{shown-add_entry_at}
use control_system_adapter_o.Form.View.Shown.{shown-create_directory_node}
use control_system_adapter_o.Form.Window.{Window, fill_config}
use control_system_adapter_o.Form.Window.Files.{
  fill_tree, with_view, with_generator, create_map_generator,
}
use control_system_adapter_o.Form.Window.Histories.{
  add_history_setting, add_loaded, add_to_tree, put_view, apply_histories, with_loaded, show_loaded,
}

module _ (Q : Qt) where
  abbrev pub AreSynced : Option (ViewDirectory Q) → Option MapGenerator → Type 0
  AreSynced none g = Unit {0}
  AreSynced (some view) none = ⊥
  AreSynced (some view) (some g) = g.dir ≡ some (shown Q view)

  -- The tree is empty, or its items stand for exactly the objects of the generator's tree.
  abbrev pub IsSynced : Window Q → Type 0
  IsSynced w = AreSynced w.tree w.generator

  pub fill_tree-shown :
      (o : Option XmlDirectory) (view : ViewDirectory Q)
      → fill_tree Q o ≡ ok view
      → o ≡ some (shown Q view)
  unfolding fill_tree
  fill_tree-shown none view h = cc
  fill_tree-shown (some d) view h = ap some (sym (shown-create_directory_node Q d true view h))

  with_view-IsSynced :
      (g : MapGenerator) (w : Window Q) (r : Result (ViewDirectory Q))
      → fill_tree Q g.dir ≡ r
      → IsSynced (with_view Q g w r)
  with_view-IsSynced g w (ok view) h = fill_tree-shown g.dir view h
  with_view-IsSynced g w (err x) h = tt

  with_generator-IsSynced :
      (w : Window Q) (r : Run MapGenerator) → IsSynced (with_generator Q true w r)
  with_generator-IsSynced w (done g) = with_view-IsSynced g w (fill_tree Q g.dir) refl
  with_generator-IsSynced w (raised x g) = tt

  with_file-IsSynced :
      (b : Bool)
      → b ≡ true
      → (w : Window Q) (r : Run MapGenerator) → IsSynced (with_generator Q b w r)
  with_file-IsSynced true h w r = with_generator-IsSynced w r
  with_file-IsSynced false h w r = cc

  -- When a file is opened, the items of the tree stand for exactly the objects of the new generator's
  -- tree, in the same nesting and order, or, if the file cannot be read, the tree is empty.
  pub create_map_generator-IsSynced :
      (L : Etree) (open_xml : Text → Result L.Element) (file : Option Text) (w : Window Q)
      → given file ≡ true
      → IsSynced (create_map_generator Q L open_xml file w)
  unfolding create_map_generator
  create_map_generator-IsSynced L open_xml file w h =
      with_file-IsSynced (given file) h w (new_generator L open_xml file)

  -- Behind a step the generator is still the given one, and the items stand for its objects.
  abbrev pub Keeps : MapGenerator → Run (Window Q) → Type 0
  Keeps g r = ((state r).generator ≡ some g) × AreSynced (state r).tree (some g)

  if-Keeps :
      (b : Bool) (r q : Run (Window Q)) (g : MapGenerator)
      → Keeps g r
      → Keeps g q
      → Keeps g (if b then r else q)
  if-Keeps true r q g h k = h
  if-Keeps false r q g h k = k

  then-Keeps :
      (g : MapGenerator) (r : Run (Window Q)) (next : Window Q → Run (Window Q))
      → Keeps g r
      → ((w : Window Q) → Keeps g (done w) → Keeps g (next w))
      → Keeps g (r ▷ next)
  then-Keeps g (done w) next h k = k w h
  then-Keeps g (raised x w) next h k = h

  pub add_to_tree-AreSynced :
      (t : Text) (p : Place) (tree : Option (ViewDirectory Q)) (w : Window Q)
      (o : Option MapGenerator)
      → w.tree ≡ tree
      → AreSynced tree o
      → AreSynced (state (add_to_tree Q t p tree w)).tree o
  add_to_tree-AreSynced t p none w o e h = rw e tt
  add_to_tree-AreSynced t p (some view) w none e h = absurd h
  add_to_tree-AreSynced t p (some view) w (some g) e h =
      h ∙ ap some (sym (shown-add_entry_at Q t p view))

  pub generator-add_to_tree :
      (t : Text) (p : Place) (tree : Option (ViewDirectory Q)) (w : Window Q)
      → (state (add_to_tree Q t p tree w)).generator ≡ w.generator
  generator-add_to_tree t p none w = refl
  generator-add_to_tree t p (some d) w = refl

  add_history_setting-Keeps :
      (h : HistorySetting) (g : MapGenerator) (w : Window Q)
      → AreSynced w.tree (some g)
      → Keeps g (add_history_setting Q h false root_place g w)
  unfolding add_history_setting
  add_history_setting-Keeps h g w k =
      let same = record w { generator = some g } in
      (
        generator-add_to_tree h.name root_place w.tree same,
        add_to_tree-AreSynced h.name root_place w.tree same (some g) refl k,
      )

  pub add_loaded-Keeps :
      (hs : List HistorySetting) (g : MapGenerator) (w : Window Q)
      → Keeps g (done w)
      → Keeps g (add_loaded Q hs g w)
  unfolding add_loaded
  add_loaded-Keeps [] g w h = h
  add_loaded-Keeps (s ∷ hs) g w h =
      let added = record w { histories = Q.add_item w.histories s.name } in
      let new = add_history_setting Q s false root_place g added in
      then-Keeps g (if contains (Q.items w.histories) s.name then done w else new)
        (add_loaded Q hs g)
        (if-Keeps (contains (Q.items w.histories) s.name) (done w) new g h
          (add_history_setting-Keeps s g added h.1))
        (λ u k. add_loaded-Keeps hs g u k)

  apply_histories-IsSynced :
      (o : Option (ViewDirectory Q)) (g : MapGenerator) (w : Window Q)
      → w.tree ≡ o
      → w.generator ≡ some g
      → IsSynced (apply_histories Q o w)
  unfolding put_view
  apply_histories-IsSynced none g w t h = rw t tt
  apply_histories-IsSynced (some view) g w t h = rw h refl

  added-IsSynced :
      (g : MapGenerator) (r : Run (Window Q))
      → Keeps g r
      → IsSynced (state (r ▷ (λ added. done (apply_histories Q added.tree added))))
  added-IsSynced g (done w) h = apply_histories-IsSynced w.tree g w refl h.0
  added-IsSynced g (raised x w) h = rw h.0 h.1

  with_loaded-IsSynced :
      (g : MapGenerator) (w : Window Q) (r : Result (ViewDirectory Q))
      → w.generator ≡ some g
      → fill_tree Q g.dir ≡ r
      → IsSynced (state (with_loaded Q g w r))
  with_loaded-IsSynced g w (err x) h same = tt
  with_loaded-IsSynced g w (ok view) h same =
      added-IsSynced g (add_loaded Q g.config.history_settings g (record w { tree = some view })) (
        add_loaded-Keeps g.config.history_settings g (record w { tree = some view })
          (h, fill_tree-shown g.dir view same))

  -- When a map file was read, the items of the tree that is filled anew, with the histories applied to
  -- it, stand for exactly the objects of the generator's tree, or the tree is empty, also when filling
  -- raises an exception.
  pub show_loaded-IsSynced :
      (g : MapGenerator) (w : Window Q)
      → is_found g.dir ≡ true
      → IsSynced (state (show_loaded Q g w))
  unfolding show_loaded
  show_loaded-IsSynced g w h = rw h (
      with_loaded-IsSynced g
        (record w { generator = some g; fields = fill_config Q g.config w.fields })
        (fill_tree Q g.dir) refl refl)
