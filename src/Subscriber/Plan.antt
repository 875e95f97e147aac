-- ===== src/Subscriber/Plan.antt =====
-- The subscriptions of src/node/subscriber.rs: `plan_subscription_changes`, `resolve_base_url` and one
-- round of `manage_subscriptions`. A subscription is its base URL; its tasks are left out.
use nox_indexer.Prelude.{
  ℕ, ltb, Bool, true, false, not, Option, none, some, List, [], ◌∷◌, ◌++◌, if◌then◌else◌,
}
use nox_indexer.Prelude.Text.{Text, text, text_eq, is_empty, show_u64}
use nox_indexer.Prelude.Maps.{Map, get, put, remove, keys}
use nox_indexer.Offsets.Observe.{StructuredMetrics}
use nox_indexer.Seed.Cache.{insert_sorted}
use nox_indexer.Nodes.Targets.{Url, IpAddr, url_allowed_with}
use nox_indexer.Nodes.State.{NodeState}

-- The subscriptions, with the readings that the round drops.
pub record Subscriptions : Type 0 where
  pub active : Map Text
  pub metrics : Map StructuredMetrics
  pub pow_difficulties : Map ℕ

-- `a == b` of optional URLs.
abbrev pub same_url : Option Text → Option Text → Bool
same_url none none = true
same_url none (some v) = false
same_url (some u) none = false
same_url (some u) (some v) = text_eq u v

-- The sorted addresses among some whose URLs differ in two maps.
unfoldable pub differing : Map Text → Map Text → List Text → List Text
unfolding get insert_sorted
differing active current [] = []
differing active current (a ∷ rest) =
    let others = differing active current rest in
    if same_url (get a active) (get a current) then others else insert_sorted a others

-- The addresses to stop and those to start.
unfoldable pub plan_subscription_changes : Map Text → Map Text → List Text × List Text
unfolding differing keys
plan_subscription_changes active current =
    (differing active current (keys active), differing active current (keys current))

-- `for addr in &stop { if let Some(sub) = active.remove(addr) { … } }`
abbrev pub stop_one : Text → Subscriptions → Option Text → Subscriptions
stop_one a subs none = subs
stop_one a subs (some url) = record {
  active = remove a subs.active;
  metrics = remove a subs.metrics;
  pow_difficulties = remove a subs.pow_difficulties;
}

unfoldable pub stop_all : List Text → Subscriptions → Subscriptions
unfolding remove get
stop_all [] subs = subs
stop_all (a ∷ rest) subs = stop_all rest (stop_one a subs (get a subs.active))

abbrev pub start_one : Text → Option Text → Map Text → Map Text
start_one a none active = active
start_one a (some url) active = put a url active

-- `for addr in start { let Some(base_url) = current.get(&addr) else { continue }; … }`
unfoldable pub start_all : Map Text → List Text → Map Text → Map Text
unfolding put get
start_all current [] active = active
start_all current (a ∷ rest) active = start_all current rest (start_one a (get a current) active)

unfoldable pub round : Map Text → Subscriptions → Subscriptions
unfolding plan_subscription_changes stop_all start_all
round current subs =
    let (stop, start) = plan_subscription_changes subs.active current in
    let stopped = stop_all stop subs in
    record stopped { active = start_all current start stopped.active }

module _ (parse_url : Text → Option Url) (parse_ip : Text → Option IpAddr)
    (allow_private : Bool) where
  abbrev pub url_allowed : Text → Bool
  url_allowed url = url_allowed_with parse_url parse_ip url allow_private

  abbrev pub if_allowed : Text → Option Text
  if_allowed url = if url_allowed url then some url else none

  unfoldable pub resolve_base_url : Text → ℕ → Option Text
  unfolding url_allowed_with
  resolve_base_url admin_url admin_port =
      if not (is_empty admin_url)
      then if_allowed admin_url
      else if ltb 0 admin_port
      then if_allowed (text "http://127.0.0.1:" ++ show_u64 admin_port)
      else none

  -- The nodes to subscribe to, with their URLs.
  unfoldable pub current_nodes : Map NodeState → Map Text
  unfolding resolve_base_url
  current_nodes [] = []
  current_nodes ((a, node) ∷ rest) =
      let others = current_nodes rest in
      elim (resolve_base_url node.admin_url node.admin_port) [
        | none ↦ others
        | some url ↦ (a, url) ∷ others
      ]

  -- One round of `manage_subscriptions`.
  unfoldable pub manage : Map NodeState → Subscriptions → Subscriptions
  unfolding round current_nodes
  manage nodes subs = round (current_nodes nodes) subs
