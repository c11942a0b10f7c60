-- ===== src/Timeline/Labels.antt =====
-- The texts on the timeline of src/layout/rooms/views/message_graph.rs: its ticks and tooltips. Times
-- are whole milliseconds since the epoch.
use Prim.Native.String
use Prim.Native.String.{String}
use dtchat.Prelude.{ℕ, pos, none, some, ltb, if◌then◌else◌}
use dtchat.Text.{is_empty}
use dtchat.Time.{Instant, jst_from_millis}
use dtchat.Timeline.{Bar}

abbrev pub label_step_ms : ℕ
label_step_ms = 60000

module _ (T : Type 0) ⦃i : Instant T⦄ where
  -- The time of day in Japan, or a text for a time that is out of range.
  pub time_or : String → ℕ → String
  unfolding jst_from_millis
  time_or missing ms = elim (jst_from_millis {T = T} (pos ms)) [
    | none ↦ missing
    | some dt ↦ i.hms dt
  ]

  -- `time_formatter`: the label of a tick at `value`; ticks closer than the labelled ones have none. The
  -- steps are whole, so that `step < LABEL_STEP_MS - 0.5` is a test on whole numbers.
  pub tick_label : (step_size value : ℕ) → String
  unfolding time_or
  tick_label step_size value = if ltb step_size label_step_ms then "" else time_or "" value

  -- The label of the plot under the pointer: the name of what is there, or the time.
  pub hover_label : String → ℕ → String
  unfolding time_or is_empty
  hover_label name value = if is_empty name then time_or "" value else name

  -- The text of a bar under the pointer.
  pub bar_label : (peer_name : String) → Bar → String
  unfolding time_or
  bar_label peer_name b = String.◌++◌ b.label (
      String.◌++◌ "\npeer: " (
        String.◌++◌ peer_name (
          String.◌++◌ "\ntx: " (
            String.◌++◌ (time_or "--" b.start_ms)
              (String.◌++◌ " JST\narrival: " (String.◌++◌ (time_or "--" b.end_ms) " JST"))))))
