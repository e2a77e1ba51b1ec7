-- ===== src/Form/Window/Files.antt =====
-- `_createMapGenerator`, `openFile`, `saveFile`, `saveFileAs` and `loadMapFile` without the history
-- settings. What the user answers in a dialog is an argument.
use control_system_adapter_o.Prelude.{Bool, true, false, ◌||◌, Option, none, some, if◌then◌else◌}
use control_system_adapter_o.Prelude.Text.{Text, given, is_none}
use control_system_adapter_o.Prelude.Result.{
  Result, ok, err, runtime_error, type_error, attribute_error, Run, done, raised, ◌>>=◌,
}
use control_system_adapter_o.Etree.{Etree}
use control_system_adapter_o.Directory.{XmlDirectory}
use control_system_adapter_o.Generator.{MapGenerator, blank}
use control_system_adapter_o.Generator.Chimera.{new_generator}
use control_system_adapter_o.Generator.MapFile.{save}
use control_system_adapter_o.Form.Qt.{Qt}
use control_system_adapter_o.Form.View.{ViewDirectory}
use control_system_adapter_o.Form.View.Rows.{create_directory_node}
use control_system_adapter_o.Form.Window.{Window}

module _ (Q : Qt) where
  -- `_fillTree`: `None` as the tree raises, where its name is read.
  unfoldable pub fill_tree : Option XmlDirectory → Result (ViewDirectory Q)
  unfolding create_directory_node
  fill_tree none = err attribute_error
  fill_tree (some d) = create_directory_node Q d true

  -- Behind an exception of any kind the tree is empty and there is no generator.
  abbrev pub without_generator : Window Q → Window Q
  without_generator w = record w { generator = none; tree = none }

  abbrev pub with_view : MapGenerator → Window Q → Result (ViewDirectory Q) → Window Q
  with_view g w (ok view) = record w { generator = some g; tree = some view }
  with_view g w (err x) = without_generator w

  abbrev pub with_generator : Bool → Window Q → Run MapGenerator → Window Q
  with_generator file w (done g) =
      if file then with_view g w (fill_tree g.dir) else record w { generator = some g }
  with_generator file w (raised x g) = without_generator w

  module _ (L : Etree) (open_xml : Text → Result L.Element) where
    unfoldable pub create_map_generator : Option Text → Window Q → Window Q
    unfolding fill_tree new_generator
    create_map_generator file w = with_generator (given file) w (new_generator L open_xml file)

    -- `openFile(fromMenu)`: whether the user wants to open a file, and the name that is chosen, which
    -- is empty if the user cancels
    unfoldable pub open_file : Bool → Bool → Text → Window Q → Window Q
    unfolding create_map_generator
    open_file from_menu yes_reply name w =
        if yes_reply || from_menu
        then (if given (some name) then create_map_generator (some name) w else w)
        else create_map_generator none w

    -- `MapGeneratorForm(args)`, for the input file of the arguments, if one is given, and the option to
    -- start without one
    unfoldable pub new_window : Option Text → Bool → Bool → Text → Window Q → Window Q
    unfolding open_file
    new_window input no_input yes_reply name w =
        if given input
        then create_map_generator input w
        else if no_input
        then record w { generator = some (blank none) }
        else open_file false yes_reply name w

-- What saving leaves: the window's generator, and the root element that was written, if one was
-- written as a whole.
pub record Saved (E : Type 0) : Type 0 where
  pub generator : MapGenerator
  pub written : Option E
  pub save_enabled : Bool

module _ (L : Etree) where
  abbrev pub left : MapGenerator → Bool → Option L.Element → Saved L.Element
  left g enabled e = record { generator = g; written = e; save_enabled = enabled }

  -- `self.MapGenerator.save()`, where a `RuntimeError` is shown to the user
  abbrev pub reported : MapGenerator → Bool → Result L.Element → Run (Saved L.Element)
  reported g enabled (ok e) = done (left g enabled (some e))
  reported g enabled (err (runtime_error m)) = done (left g enabled none)
  reported g enabled (err x) = raised x (left g enabled none)

  -- Behind the making of the element the file is opened and written, which gives `answer`.
  unfoldable pub save_now : Result (Unit {0}) → MapGenerator → Bool → Run (Saved L.Element)
  unfolding save
  save_now answer g enabled =
      reported g enabled (save L g >>= λ root. answer >>= λ nothing. ok root)

  abbrev pub enabled_save : Run (Saved L.Element) → Run (Saved L.Element)
  enabled_save (done s) = done (record s { save_enabled = true })
  enabled_save (raised x s) = raised x s

  abbrev pub save_chosen :
      Result (Unit {0}) → Option Text → MapGenerator → Bool → Run (Saved L.Element)
  save_chosen answer none g enabled = done (left g enabled none)
  save_chosen answer (some name) g enabled =
      save_now answer (record g { output_file = some name }) enabled

  -- The proposed name is put together from the application name; without one that is a `TypeError`.
  unfoldable pub save_file_as :
      Result (Unit {0}) → Option Text → MapGenerator → Bool → Run (Saved L.Element)
  unfolding save_now
  save_file_as answer choice g enabled =
      if is_none g.config.application_name
      then raised type_error (left g enabled none)
      else enabled_save (save_chosen answer choice g enabled)

  unfoldable pub save_file :
      Result (Unit {0}) → Option Text → MapGenerator → Bool → Run (Saved L.Element)
  unfolding save_file_as
  save_file answer choice g enabled =
      if is_none g.output_file
      then save_file_as answer choice g enabled
      else save_now answer g enabled
