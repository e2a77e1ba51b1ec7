-- ===== src/Form/Window/Histories.antt =====
-- `prepareNewHistorySetting`, `addHistorySetting`, `editHistorySetting` and `loadMapFile`.
use control_system_adapter_o.Prelude.{
  ℕ, zero, suc, ◌+◌, Bool, true, false, Option, none, some, List, [], ◌∷◌, ◌++◌, if◌then◌else◌,
}
use control_system_adapter_o.Prelude.Text.{Text, codes, given, text_eq}
use control_system_adapter_o.Prelude.Number.{pos, str}
use control_system_adapter_o.Prelude.Result.{
  Result, ok, err, runtime_error, Run, done, raised, attribute_error, ◌▷◌,
}
use control_system_adapter_o.Etree.{Etree}
use control_system_adapter_o.History.{HistorySetting, new_setting}
use control_system_adapter_o.Directory.{XmlDirectory, is_found}
use control_system_adapter_o.Generator.{MapGenerator}
use control_system_adapter_o.Generator.MapFile.{parse_map_file, Skipped}
use control_system_adapter_o.Form.Qt.{Qt, contains}
use control_system_adapter_o.Form.HistoryDialog as HistoryDialog
use control_system_adapter_o.Form.HistoryDialog.{Store, Action}
use control_system_adapter_o.Form.View.{ViewDirectory, shown, with_objects}
use control_system_adapter_o.Form.View.History.{update_histories}
use control_system_adapter_o.Form.View.Top.{Place, root_place, add_entry_at}
use control_system_adapter_o.Form.Window.{Window, fill_config}
use control_system_adapter_o.Form.Window.Files.{fill_tree}

-- `'historySetting_{}'.format(i)`
unfoldable pub numbered : ℕ → Text
unfolding str
numbered i = codes "historySetting_" ++ str (pos i)

-- `while(self.histories.findText(histName) != -1)` with fuel; `none` means that the fuel ran out.
unfoldable pub next_name : ℕ → List Text → Text → ℕ → Option Text
unfolding numbered text_eq
next_name zero taken name i = none
next_name (suc fuel) taken name i =
    let rest = next_name fuel taken (numbered i) (i + 1) in
    if contains taken name then rest else some name

abbrev pub count : List Text → ℕ
count [] = 0
count (t ∷ ts) = suc (count ts)

-- The name of a new setting: with fuel above the number of names that are taken
unfoldable pub new_name : List Text → Option Text
unfolding next_name numbered text_eq
new_name taken =
    if contains taken (codes "historySetting")
    then next_name (suc (suc (count taken))) taken (numbered 0) 0
    else some (codes "historySetting")

-- The objects 0, 1, … are the settings of a list, the others are `other`.
unfoldable pub store_of : List HistorySetting → HistorySetting → Store
store_of [] other n = other
store_of (h ∷ hs) other zero = h
store_of (h ∷ hs) other (suc n) = store_of hs other n

unfoldable pub numbers_from : ℕ → List HistorySetting → List ℕ
numbers_from n [] = []
numbers_from n (h ∷ hs) = n ∷ numbers_from (suc n) hs

unfoldable pub read_back : Store → List ℕ → List HistorySetting
read_back store [] = []
read_back store (n ∷ ns) = store n ∷ read_back store ns

unfoldable pub size : List HistorySetting → ℕ
size [] = 0
size (h ∷ hs) = suc (size hs)

module _ (Q : Qt) where
  -- The item at the top of an empty tree is `None`, and has no widget: an `AttributeError`.
  abbrev pub add_to_tree : Text → Place → Option (ViewDirectory Q) → Window Q → Run (Window Q)
  add_to_tree t p none w = raised attribute_error w
  add_to_tree t p (some d) w =
      done (record w { tree = some (add_entry_at Q t p d); histories_enabled = true })

  -- `addHistorySetting(setting, updateMapGenerator)`, with the place of the item that is at the top of
  -- the tree then
  unfoldable pub add_history_setting :
      HistorySetting → Bool → Place → MapGenerator → Window Q → Run (Window Q)
  unfolding add_entry_at
  add_history_setting h update p g w = add_to_tree h.name p w.tree (record w {
    generator = some (
        if update
        then record g {
          config = record g.config { history_settings = g.config.history_settings ++ (h ∷ []) };
        }
        else g);
  })

  -- `prepareNewHistorySetting()`: the new setting is the object behind those of the generator, and is
  -- added whatever button closes the dialog. The name that is found is an argument.
  unfoldable pub prepare_new_history_setting :
      HistoryDialog.Fields Q → List Action → Place → Text → MapGenerator → Window Q → Run (Window Q)
  unfolding add_history_setting HistoryDialog.new_dialog HistoryDialog.act_all store_of numbers_from
      read_back size
  prepare_new_history_setting ui actions p name g w =
      let settings = g.config.history_settings in
      let added = Q.set_current_text (Q.add_item w.histories name) name in
      let closed = HistoryDialog.act_all Q actions (
        HistoryDialog.new_dialog Q ui (store_of settings (new_setting name)) (size settings) added
          (numbers_from 0 settings) false) in
      add_history_setting (closed.store (size settings)) true p
        (record g {
          config = record g.config {
            history_settings = read_back closed.store (numbers_from 0 settings);
          };
        })
        (record w { histories = closed.combo })

  -- `editHistorySetting()`, for the object of the current item
  unfoldable pub edit_history_setting :
      HistoryDialog.Fields Q → List Action → ℕ → MapGenerator → Window Q → Window Q
  unfolding HistoryDialog.new_dialog HistoryDialog.act_all store_of numbers_from read_back
  edit_history_setting ui actions object g w =
      let settings = g.config.history_settings in
      let closed = HistoryDialog.act_all Q actions (
        HistoryDialog.new_dialog Q ui (store_of settings (new_setting [])) object w.histories
          (numbers_from 0 settings) true) in
      record w {
        generator = some (record g {
          config = record g.config {
            history_settings = read_back closed.store (numbers_from 0 settings);
          };
        });
        histories = closed.combo;
      }

  -- The loop of `loadMapFile` over the settings of the map file: the tree was just filled, so its root is
  -- at the top.
  unfoldable pub add_loaded : List HistorySetting → MapGenerator → Window Q → Run (Window Q)
  unfolding add_history_setting text_eq
  add_loaded [] g w = done w
  add_loaded (h ∷ hs) g w =
      (if contains (Q.items w.histories) h.name
        then done w
        else add_history_setting h false root_place g
            (record w { histories = Q.add_item w.histories h.name }))
      ▷ add_loaded hs g

  abbrev pub with_dir : XmlDirectory → Option MapGenerator → Option MapGenerator
  with_dir d none = none
  with_dir d (some g) = some (record g { dir = some d })

  -- The objects of the items are those of the generator's tree.
  unfoldable pub put_view : ViewDirectory Q → Window Q → Window Q
  unfolding shown
  put_view view w = record w { tree = some view; generator = with_dir (shown Q view) w.generator }

  abbrev pub apply_histories : Option (ViewDirectory Q) → Window Q → Window Q
  apply_histories none w = w
  apply_histories (some view) w = put_view (update_histories Q view) w

  abbrev pub with_loaded : MapGenerator → Window Q → Result (ViewDirectory Q) → Run (Window Q)
  with_loaded g w (err x) = raised x (record w { tree = none })
  with_loaded g w (ok view) =
      add_loaded g.config.history_settings g (record w { tree = some view })
      ▷ (λ added. done (apply_histories added.tree added))

  -- Behind reading the file: the fields, the tree, and the histories
  unfoldable pub show_loaded : MapGenerator → Window Q → Run (Window Q)
  unfolding fill_config fill_tree add_loaded update_histories put_view
  show_loaded g w =
      let w1 = record w { generator = some g; fields = fill_config Q g.config w.fields } in
      if is_found g.dir then with_loaded g w1 (fill_tree Q g.dir) else done w1

  -- The generator behind an exception: what was read before it stays.
  abbrev pub keep_read : MapGenerator → Option (ViewDirectory Q) → Option (ViewDirectory Q)
  keep_read g none = none
  keep_read g (some view) = elim g.dir [ none ↦ some view | some d ↦ some (with_objects Q view d) ]

  abbrev pub failed : MapGenerator → Window Q → Window Q
  failed g w = record w { generator = some g; tree = keep_read g w.tree }

  abbrev pub with_read : Window Q → Run (MapGenerator × Skipped) → Run (Window Q)
  with_read w (done (g, missed)) = show_loaded g w
  with_read w (raised (runtime_error m) (g, missed)) = done (failed g w)
  with_read w (raised x (g, missed)) = raised x (failed g w)

  abbrev pub load_into :
      (L : Etree)
      → (Text → Result L.Element)
      → Text
      → Window Q
      → Option MapGenerator
      → Run (Window Q)
  load_into L open_xml name w none = done w
  load_into L open_xml name w (some g) =
      if given (some name) then with_read w (parse_map_file L open_xml name g) else done w

  -- `loadMapFile()`, for the chosen file name, which is empty if the user cancels
  unfoldable pub load_map_file :
      (L : Etree) → (Text → Result L.Element) → Text → Window Q → Run (Window Q)
  unfolding show_loaded parse_map_file with_objects
  load_map_file L open_xml name w = load_into L open_xml name w w.generator
