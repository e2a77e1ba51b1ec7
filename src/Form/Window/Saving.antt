-- ===== src/Form/Window/Saving.antt =====
-- When saving from the window raises, and what it writes.
use control_system_adapter_o.Prelude.{
  ◌≡◌, refl, Bool, true, false, Option, none, some, if◌then◌else◌, arith,
}
use control_system_adapter_o.Prelude.Text.{Text, is_none}
use control_system_adapter_o.Prelude.Result.{
  Exception, Result, ok, err, runtime_error, type_error, ◌>>=◌, ◌>>◌, Run, done, raised,
}
use control_system_adapter_o.Etree.{Etree}
use control_system_adapter_o.Encryption.{check_encryption_settings}
use control_system_adapter_o.Config.{Config}
use control_system_adapter_o.Config.Check.{check, full_config, create_config_lem}
use control_system_adapter_o.Generator.{MapGenerator}
use control_system_adapter_o.Generator.MapFile.{save, add_entries, csa_nsmap}
use control_system_adapter_o.Form.Window.Files.{
  Saved, left, reported, save_now, enabled_save, save_chosen, save_file_as, save_file,
}

-- The exception, if any, is a `RuntimeError`.
abbrev OnlyRuntime {ℓ} : {A : Type ℓ} → Result A → Type 0
OnlyRuntime (ok a) = Unit {0}
OnlyRuntime (err (runtime_error m)) = Unit {0}
OnlyRuntime (err x) = ⊥

check-OnlyRuntime : (c : Config) → OnlyRuntime (check c)
unfolding check check_encryption_settings
check-OnlyRuntime c = ground arith

create-OnlyRuntime :
    {A : Type 0} (r : Result (Unit {0})) (a : A) → OnlyRuntime r → OnlyRuntime (r >> ok a)
create-OnlyRuntime (ok u) a h = tt
create-OnlyRuntime (err (runtime_error m)) a h = tt
create-OnlyRuntime (err x) a h = h

-- What opening and writing a file may raise: not a `RuntimeError`.
abbrev pub NoRuntime {ℓ} : {A : Type ℓ} → Result A → Type 0
NoRuntime (ok a) = Unit {0}
NoRuntime (err (runtime_error m)) = ⊥
NoRuntime (err x) = Unit {0}

module _ (L : Etree) where
  save-OnlyRuntime : (g : MapGenerator) → OnlyRuntime (save L g)
  unfolding save
  save-OnlyRuntime g =
      rw (create_config_lem L g.config (L.element "uamapping" csa_nsmap))
        (checked (check g.config) (check-OnlyRuntime g.config))
    where
      checked :
          (r : Result (Unit {0}))
          → OnlyRuntime r
          → OnlyRuntime (
              (r
                >> ok (
                    L.append
                      (L.element "uamapping" csa_nsmap)
                      (full_config L g.config (L.element "uamapping" csa_nsmap))))
              >>= (λ root. ok (add_entries L g.dir root)))
      checked (ok u) h = tt
      checked (err (runtime_error m)) h = tt
      checked (err x) h = h

  -- The generator that is left, and what was written
  abbrev pub Gives : Run (Saved L.Element) → MapGenerator → Option L.Element → Type 0
  Gives r g e = (s : Saved L.Element) × (r ≡ done s) × (s.generator ≡ g) × (s.written ≡ e)

  abbrev pub Raises : Exception → Run (Saved L.Element) → MapGenerator → Type 0
  Raises x r g = (s : Saved L.Element) × (r ≡ raised x s) × (s.generator ≡ g) × (s.written ≡ none)

  -- Saving to a file, for what opening and writing it gives, and for the element that is made: it is
  -- written, or the exception of the file is passed on, or the missing setting is reported and nothing
  -- is written.
  abbrev pub Saves :
      Result (Unit {0}) → Result L.Element → MapGenerator → Run (Saved L.Element) → Type 0
  Saves (ok u) (ok e) g r = Gives r g (some e)
  Saves (err x) (ok e) g r = Raises x r g
  Saves answer (err x) g r = Gives r g none

  reported-Saves :
      (answer : Result (Unit {0})) (g : MapGenerator) (enabled : Bool) (r : Result L.Element)
      → NoRuntime answer
      → OnlyRuntime r
      → Saves answer r g (reported L g enabled (r >>= λ root. answer >>= λ u. ok root))
  reported-Saves (ok u) g enabled (ok e) n h = (left L g enabled (some e), refl, refl, refl)
  reported-Saves (err (runtime_error m)) g enabled (ok e) n h = absurd n
  reported-Saves (err x) g enabled (ok e) n h = (left L g enabled none, refl, refl, refl)
  reported-Saves (ok u) g enabled (err (runtime_error m)) n h =
      (left L g enabled none, refl, refl, refl)
  reported-Saves (err y) g enabled (err (runtime_error m)) n h =
      (left L g enabled none, refl, refl, refl)
  reported-Saves answer g enabled (err x) n h = absurd h

  save_now-Saves :
      (answer : Result (Unit {0})) (g : MapGenerator) (enabled : Bool)
      → NoRuntime answer
      → Saves answer (save L g) g (save_now L answer g enabled)
  unfolding save_now
  save_now-Saves answer g enabled n =
      reported-Saves answer g enabled (save L g) n (save-OnlyRuntime g)

  enabled-Saves :
      (answer : Result (Unit {0})) (e : Result L.Element) (g : MapGenerator)
      (r : Run (Saved L.Element))
      → Saves answer e g r
      → Saves answer e g (enabled_save L r)
  enabled-Saves (ok u) (ok e) g r h = (record h.0 { save_enabled = true }, rw h.1 refl, h.2, h.3)
  enabled-Saves (err x) (ok e) g r h = (h.0, rw h.1 refl, h.2, h.3)
  enabled-Saves (ok u) (err x) g r h = (record h.0 { save_enabled = true }, rw h.1 refl, h.2, h.3)
  enabled-Saves (err y) (err x) g r h = (record h.0 { save_enabled = true }, rw h.1 refl, h.2, h.3)

  -- Behind the choice of a file: the chosen name is kept, whatever saving gives.
  abbrev pub SavesChosen :
      Result (Unit {0}) → Option Text → MapGenerator → Run (Saved L.Element) → Type 0
  SavesChosen answer none g r = Gives r g none
  SavesChosen answer (some name) g r =
      Saves answer (save L (record g { output_file = some name }))
        (record g { output_file = some name }) r

  save_chosen-SavesChosen :
      (answer : Result (Unit {0})) (choice : Option Text) (g : MapGenerator) (enabled : Bool)
      → NoRuntime answer
      → SavesChosen answer choice g (enabled_save L (save_chosen L answer choice g enabled))
  save_chosen-SavesChosen answer none g enabled n = (left L g true none, refl, refl, refl)
  save_chosen-SavesChosen answer (some name) g enabled n =
      let named = record g { output_file = some name } in
      enabled-Saves answer (save L named) named (save_now L answer named enabled)
        (save_now-Saves answer named enabled n)

  abbrev pub Outcome :
      Bool → Bool → Result (Unit {0}) → Option Text → MapGenerator → Run (Saved L.Element) → Type 0
  Outcome false nameless answer choice g r = Saves answer (save L g) g r
  Outcome true true answer choice g r = Raises type_error r g
  Outcome true false answer choice g r = SavesChosen answer choice g r

  save_file-cases :
      (fresh nameless : Bool) (answer : Result (Unit {0})) (choice : Option Text) (g : MapGenerator)
      (enabled : Bool)
      → NoRuntime answer
      → Outcome fresh nameless answer choice g (
          if fresh
          then (if nameless
              then raised type_error (left L g enabled none)
              else enabled_save L (save_chosen L answer choice g enabled))
          else save_now L answer g enabled)
  save_file-cases false nameless answer choice g enabled n = save_now-Saves answer g enabled n
  save_file-cases true true answer choice g enabled n = (left L g enabled none, refl, refl, refl)
  save_file-cases true false answer choice g enabled n =
      save_chosen-SavesChosen answer choice g enabled n

  -- If opening and writing the file raises no `RuntimeError`, `saveFile` with a known file name writes
  -- the element of `save`, and passes on what opening and writing raises; if a required setting is
  -- missing, it writes nothing and does not raise. Without a file name it raises a `TypeError` if there
  -- is no application name; if the user chooses no file it writes nothing and leaves the generator, and
  -- otherwise it keeps the chosen name, also when it raises, and saves as with a known one.
  pub save_file-Outcome :
      (answer : Result (Unit {0})) (choice : Option Text) (g : MapGenerator) (enabled : Bool)
      → NoRuntime answer
      → Outcome
          (is_none g.output_file)
          (is_none g.config.application_name)
          answer
          choice
          g
          (save_file L answer choice g enabled)
  unfolding save_file save_file_as
  save_file-Outcome answer choice g enabled n =
      save_file-cases (is_none g.output_file) (is_none g.config.application_name) answer choice g
        enabled n
