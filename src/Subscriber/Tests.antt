-- ===== src/Subscriber/Tests.antt =====
-- One registered node, the events that it sends, and the subscription to it.
use nox_indexer.Prelude.{
  ℕ, List, All, inl, true, ◌≡◌, refl, false, Option, none, some, [], ◌∷◌, arith,
}
use nox_indexer.Prelude.Text.{Text, text, to_lowercase}
use nox_indexer.Prelude.Maps.{Map, get, has_key}
use nox_indexer.Nodes.Status.{online}
use nox_indexer.Nodes.Targets.{Url, IpAddr, v4}
use nox_indexer.Nodes.State.{NodeState}
use nox_indexer.Subscriber.Events.{
  IngestEvent, topology_add, topology_remove, Republished, EventState, is_republishable, dedup_key,
  chain_view_of_topology_event, check, trimmed, with_key, with_view, process_event,
}
use nox_indexer.Subscriber.Published.{IsProcessed, process_event-IsProcessed}
use nox_indexer.Subscriber.Repeated.{Sent, process_all, both_add, IsSoon, process_event-repeated}
use nox_indexer.Offsets.Observe.{NodeOffset, default_offset, lifetime}
use nox_indexer.Subscriber.Scrape.{Readings, stored_offset, flush_dirty_offsets}
use nox_indexer.Subscriber.Flushed.{flush_dirty_offsets-get}
use nox_indexer.Subscriber.Plan.{Subscriptions, current_nodes, manage}
use nox_indexer.Subscriber.Planned.{IsAllowed, manage-get}

abbrev node : NodeState
node = record {
  id = text "nox-ab";
  address = text "0xab";
  admin_port = 9_001;
  ingress_port = 9_002;
  p2p_addr = text "/ip4/8.8.8.8/tcp/9000";
  sphinx_key = [];
  admin_url = text "http://8.8.8.8:9001";
  ingress_url = [];
  metadata_url = [];
  status = online;
  role = 2;
  layer = 2;
  frozen = false;
  registry_address = text "0xc0";
  chain_id = 1;
}

abbrev nodes : Map NodeState
nodes = (text "0xab", node) ∷ []

abbrev state : EventState
state = record {
  nodes = nodes;
  topo_dedup = record { seen = []; last_clear = 0 };
  recent_events = [];
}

-- A node claims the role 7 for the member.
abbrev addition : IngestEvent
addition = topology_add (text "0xAB") 7 (text "1") (text "other")

abbrev raw : Republished
raw = record { event = addition; node_address = text "0xcd"; role = some 2 }

republished_once : (process_event (text "0xcd") addition 5 state).1 ≡ some raw
unfolding process_event is_republishable chain_view_of_topology_event get to_lowercase with_view
    with_key dedup_key check has_key trimmed
republished_once = refl

process_event-IsProcessed_example :
    IsProcessed addition state (process_event (text "0xcd") addition 5 state)
process_event-IsProcessed_example = process_event-IsProcessed (text "0xcd") addition 5 state

-- Another node sends the same addition, after an event of another address.
abbrev claim : IngestEvent
claim = topology_add (text "0xAB") 9 (text "2") (text "third")

abbrev between : List Sent
between =
    record { from_node = text "0xcd"; event = topology_remove (text "0xEE") (text "other"); at = 7 }
    ∷ []

abbrev IsAtOnce : ℕ → Type 0
IsAtOnce at = IsSoon (process_event (text "0xcd") addition 5 state).0.topo_dedup.last_clear at

early_enough : All (λ (s : Sent). IsAtOnce s.at) between × IsAtOnce 9
unfolding process_event is_republishable chain_view_of_topology_event get to_lowercase with_view
    with_key dedup_key check has_key trimmed
early_enough = ((omega arith, tt), omega arith)

process_event-repeated_example :
    (process_event
      (text "0xef")
      claim
      9
      (process_all between (process_event (text "0xcd") addition 5 state).0)).1
    ≡ none
process_event-repeated_example =
    process_event-repeated (text "0xcd") (text "0xef") addition claim 5 9 between state {raw = raw}
      (both_add (text "0xAB") 7 9 (text "1") (text "2") (text "other") (text "third"))
      republished_once early_enough.0 early_enough.1

abbrev parse_url : Text → Option Url
parse_url url = some (record { scheme = text "http"; host_str = some (text "8.8.8.8") })

abbrev parse_ip : Text → Option IpAddr
parse_ip t = some (v4 (record { a = 8; b = 8; c = 8; d = 8 }))

-- The node was at another URL, and a node is gone.
abbrev before : Subscriptions
before = record {
  active = (text "0xab", text "http://8.8.4.4:1") ∷ (text "0xcd", text "http://1.1.1.1:1") ∷ [];
  metrics = [];
  pow_difficulties = (text "0xcd", 20) ∷ [];
}

manage-get_example :
    (get (text "0xab") (manage parse_url parse_ip false nodes before).active
      ≡ get (text "0xab") (current_nodes parse_url parse_ip false nodes))
    × IsAllowed parse_url parse_ip false
        (get (text "0xab") (manage parse_url parse_ip false nodes before).active)
manage-get_example = manage-get parse_url parse_ip false nodes before (text "0xab")

-- A node whose restart was banked.
abbrev marked : NodeOffset
marked = record default_offset { dirty = true }

abbrev readings : Readings
readings = record {
  nodes = nodes;
  metrics = [];
  pow_difficulties = [];
  metric_offsets = (text "0xab", marked) ∷ [];
  saved = [];
}

abbrev refuse_nothing : Text → Option Text
refuse_nothing t = none

marked_there : get (text "0xab") readings.metric_offsets ≡ some marked
unfolding get
marked_there = refl

flush_dirty_offsets-get_example :
    (get (text "0xab") (flush_dirty_offsets refuse_nothing readings).saved
      ≡ some (stored_offset marked))
    × (lifetime (stored_offset marked) ≡ lifetime marked)
flush_dirty_offsets-get_example =
    flush_dirty_offsets-get refuse_nothing readings (text "0xab") marked marked_there (inl refl)
      refl
