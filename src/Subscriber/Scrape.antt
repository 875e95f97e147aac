-- ===== src/Subscriber/Scrape.antt =====
-- The readings of a node in src/node/subscriber.rs: the ticks of `scrape_node_metrics`,
-- `apply_lifetime_offsets` and `flush_dirty_offsets`. What a node answers and what the database refuses
-- are arguments; the rows of `node_metric_offsets` of src/db.rs are what `load_metric_offsets` reads back.
-- The counters alone are kept of a reading, and a figure is read back from its JSON as it was written.
use nox_indexer.Prelude.{
  ℕ, Bool, false, ◌||◌, not, Option, none, some, List, [], ◌∷◌, if◌then◌else◌,
}
use nox_indexer.Prelude.Text.{Text}
use nox_indexer.Prelude.Results.{Result, ok, err}
use nox_indexer.Prelude.Maps.{Map, get, put, remove, modify, keys}
use nox_indexer.Offsets.Counters.{is_zero}
use nox_indexer.Offsets.Observe.{StructuredMetrics, NodeOffset, default_offset, observe, apply}
use nox_indexer.Nodes.Status.{is_deregistered}
use nox_indexer.Nodes.State.{NodeState}

-- The part of `AppState` that the readings write, with the rows of the offsets.
pub record Readings : Type 0 where
  pub nodes : Map NodeState
  pub metrics : Map StructuredMetrics
  pub pow_difficulties : Map ℕ
  pub metric_offsets : Map NodeOffset
  pub saved : Map NodeOffset

abbrev pub is_registered_node : Option NodeState → Bool
is_registered_node none = false
is_registered_node (some node) = not (is_deregistered node.status)

unfoldable pub is_registered_member : Map NodeState → Text → Bool
unfolding get
is_registered_member nodes address = is_registered_node (get address nodes)

-- What `save_metric_offset` keeps of an offset, as it is loaded again.
abbrev pub stored_offset : NodeOffset → NodeOffset
stored_offset o = record default_offset {
  last_node_start_time = o.last_node_start_time;
  banked = o.banked;
  last_raw = o.last_raw;
}

-- `offset.dirty = false`
abbrev pub clean : NodeOffset → NodeOffset
clean o = record o { dirty = false }

-- A save of a snapshot: on success the current entry is marked clean.
unfoldable pub save_snapshot : Text → NodeOffset → Option Text → Readings → Readings
unfolding put modify
save_snapshot address o (some error) state = state
save_snapshot address o none state = record state {
  saved = put address (stored_offset o) state.saved;
  metric_offsets = modify address clean state.metric_offsets;
}

abbrev pub or_default : Option NodeOffset → NodeOffset
or_default none = default_offset
or_default (some o) = o

module _ (scale : ℕ) where
  -- The offset after a reading, and the reading with the lifetime figures.
  unfoldable pub apply_lifetime_offsets :
      Text → StructuredMetrics → ℕ → Option Text → Readings → Readings × StructuredMetrics
  unfolding observe apply save_snapshot
  apply_lifetime_offsets address parsed now refused state =
      let (observed, seen) =
        observe scale (or_default (get address state.metric_offsets)) parsed now in
      let offset : NodeOffset = record observed { adjusting = seen.adjusted } in
      let state' = record state { metric_offsets = put address offset state.metric_offsets } in
      (
        if seen.restarted then save_snapshot address offset refused state' else state',
        apply observed parsed,
      )

  abbrev with_reading : Text → Readings × StructuredMetrics → Readings
  with_reading address (state, parsed) = record state { metrics = put address parsed state.metrics }

  -- A tick for the metrics; `none` is any failure to read them.
  unfoldable pub metrics_tick :
      Text → Option StructuredMetrics → ℕ → Option Text → Readings → Readings
  unfolding apply_lifetime_offsets is_registered_member
  metrics_tick address none now refused state = state
  metrics_tick address (some parsed) now refused state =
      if is_registered_member state.nodes address
      then with_reading address (apply_lifetime_offsets address parsed now refused state)
      else state

abbrev with_difficulty : Text → Option ℕ → Map ℕ → Map ℕ
with_difficulty address none difficulties = remove address difficulties
with_difficulty address (some d) difficulties = put address d difficulties

-- A tick for the difficulty.
unfoldable pub topology_tick : Text → Result (Option ℕ) → Readings → Readings
unfolding is_registered_member
topology_tick address (err error) state = state
topology_tick address (ok difficulty) state =
    if is_registered_member state.nodes address
    then record state {
      pow_difficulties = with_difficulty address difficulty state.pow_difficulties;
    }
    else state

abbrev pub is_pending : NodeOffset → Bool
is_pending o = o.dirty || not (is_zero o.last_raw)

abbrev pub flush_one : Text → Option NodeOffset → Option Text → Readings → Readings
flush_one address none refused state = state
flush_one address (some o) refused state =
    if is_pending o then save_snapshot address o refused state else state

-- The loop over the entries of the snapshot, by their keys.
unfoldable pub flush_all : Map NodeOffset → (Text → Option Text) → List Text → Readings → Readings
unfolding save_snapshot is_zero
flush_all snapshot refuse [] state = state
flush_all snapshot refuse (a ∷ rest) state =
    flush_all snapshot refuse rest (flush_one a (get a snapshot) (refuse a) state)

unfoldable pub flush_dirty_offsets : (Text → Option Text) → Readings → Readings
unfolding flush_all keys
flush_dirty_offsets refuse state =
    flush_all state.metric_offsets refuse (keys state.metric_offsets) state
