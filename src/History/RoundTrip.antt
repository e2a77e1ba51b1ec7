-- ===== src/History/RoundTrip.antt =====
-- A history setting that was written is read back.
use control_system_adapter_o.Prelude.{String, ◌≡◌, Bool-cases, inl, inr, if◌then◌else◌}
use control_system_adapter_o.Prelude.Text.{Text, text_eq, opt_eq}
use control_system_adapter_o.Prelude.Number.{pos}
use control_system_adapter_o.Prelude.Result.{done, read_int-str, read_int-none}
use control_system_adapter_o.Etree.{Etree}
use control_system_adapter_o.Etree.Laws.{etree_laws}
use control_system_adapter_o.Etree.Build.{build_laws}
use control_system_adapter_o.History.{
  HistorySetting, new_setting, influx_db, circular_buffer, write_setting, read_history,
}

-- What a written setting holds: without the buffer length of an influxDB setting, and with a
-- backend that is one of the two.
abbrev pub stored : HistorySetting → HistorySetting
stored h = record h {
  buffer_length = if text_eq h.backend_type influx_db then pos 100 else h.buffer_length;
  backend_type = if text_eq h.backend_type influx_db then influx_db else circular_buffer;
}

module _ (L : Etree) (e : L.Element) (t : String) (n : Text) where
  -- `readHistory` of a new setting reads back from an element what `writeSetting` wrote to it, but for the
  -- buffer length of an influxDB setting, which is the default 100, and a backend type that is neither
  -- of the two, which is the circular buffer.
  pub read_history-write_setting :
      (h : HistorySetting)
      → read_history L (write_setting L h (L.sub_element e t)) (new_setting n) ≡ done (stored h)
  unfolding read_history write_setting opt_eq
  read_history-write_setting h = elim (Bool-cases (text_eq h.backend_type influx_db)) [
    | inl influx ↦ rw influx (simp (etree_laws, build_laws, read_int-str, read_int-none))
    | inr other ↦ rw other (simp (etree_laws, build_laws, read_int-str))
  ]
