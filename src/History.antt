-- ===== src/History.antt =====
-- `HistorySetting` of tools/mapfileGenerator/ctk_opcua_generator_tools/generatorClass.py
pub mod RoundTrip
use control_system_adapter_o.Prelude.{Bool, true, false, not, some, if◌then◌else◌}
use control_system_adapter_o.Prelude.Text.{Text, codes, text_eq, opt_eq}
use control_system_adapter_o.Prelude.Number.{ℤ, pos, str}
use control_system_adapter_o.Prelude.Result.{Run, done, ◌▷◌, read_int, or_old}
use control_system_adapter_o.Etree.{Etree}
use control_system_adapter_o.Etree.Build.{set_if}

pub record HistorySetting : Type 0 where
  pub name : Text
  pub entries_per_response : ℤ
  pub buffer_length : ℤ
  pub interval : ℤ
  pub backend_type : Text

abbrev pub influx_db : Text
influx_db = codes "influxDB"

abbrev pub circular_buffer : Text
circular_buffer = codes "circular buffer"

-- `HistorySetting(name)`
abbrev pub new_setting : Text → HistorySetting
new_setting name = record {
  name = name;
  entries_per_response = pos 1000;
  buffer_length = pos 100;
  interval = pos 1000;
  backend_type = circular_buffer;
}

abbrev pub flag_text : Bool → Text
flag_text b = if b then codes "True" else codes "False"

module _ (L : Etree) where
  unfoldable pub create_history : HistorySetting → L.Element → L.Element
  create_history h e =
      let e1 = L.set e "name" h.name in
      let e2 = L.set e1 "entries_per_response" (str h.entries_per_response) in
      let e3 = L.set e2 "buffer_length" (str h.buffer_length) in
      let e4 = L.set e3 "interval" (str h.interval) in
      L.set e4 "useInfluxBackend" (flag_text (text_eq h.backend_type influx_db))

  unfoldable pub write_setting : HistorySetting → L.Element → L.Element
  write_setting h e =
      let e1 = L.set e "name" h.name in
      let e2 = L.set e1 "entries_per_response" (str h.entries_per_response) in
      let e3 = L.set e2 "interval" (str h.interval) in
      let e4 = L.set e3 "useInfluxBackend" (flag_text (text_eq h.backend_type influx_db)) in
      set_if L (not (text_eq h.backend_type influx_db)) e4 "buffer_length" (str h.buffer_length)

  -- The backend falls back to the circular buffer in every other case.
  read_backend : L.Element → HistorySetting → HistorySetting
  read_backend e h = record h {
    backend_type =
        if opt_eq (L.attrib e "useInfluxBackend") (some (codes "True"))
        then influx_db
        else circular_buffer;
  }

  -- `int(…)` raises a `ValueError` half way; what was read before it stays.
  unfoldable pub read_history : L.Element → HistorySetting → Run HistorySetting
  unfolding read_backend
  read_history e h =
      done (record h { name = or_old (L.attrib e "name") h.name })
      ▷ (λ h1.
          read_int (L.attrib e "entries_per_response") h1
            (λ z. record h1 { entries_per_response = z }))
      ▷ (λ h2. read_int (L.attrib e "buffer_length") h2 (λ z. record h2 { buffer_length = z }))
      ▷ (λ h3. read_int (L.attrib e "interval") h3 (λ z. record h3 { interval = z }))
      ▷ (λ h4. done (read_backend e h4))
