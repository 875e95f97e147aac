-- ===== src/Config/Network.antt =====
-- `NetworkConfig::resolve` of src/config.rs.
use nox_indexer.Prelude.{
  ℕ, ◌==◌, ◌≤◌, ◌<◌, ◌≡◌, refl, inl, inr, ltb, false, ◌||◌, Option, none, some, List, [], ◌∷◌, ◌++◌,
  if◌then◌else◌, arith, Bool-cases,
}
use nox_indexer.Prelude.Text.{Text, text, text_eq, is_empty}
use nox_indexer.Prelude.Results.{Result, ok, err}
use nox_indexer.Rpc.Urls.{parse_rpc_urls}

-- The command-line arguments that `resolve` reads.
pub record Args : Type 0 where
  pub network : Text
  pub rpc_url : Option Text
  pub from_block : ℕ
  pub confirmations : Option ℕ
  pub node_topology_poll_secs : ℕ
  pub log_chunk_min : ℕ
  pub log_chunk_max : ℕ

pub record NetworkConfig : Type 0 where
  pub rpc_urls : List Text
  pub poll_interval_secs : ℕ
  pub from_block : ℕ
  pub confirmations : ℕ

-- The default endpoint, the polling interval and the default confirmations of a network.
pub record Defaults : Type 0 where
  pub rpc : Option Text
  pub poll_secs : ℕ
  pub confirmations : ℕ

unfoldable pub defaults_of : Text → Option Defaults
defaults_of network =
    if text_eq network (text "localtestnet")
    then some
        (record { rpc = some (text "http://127.0.0.1:8545"); poll_secs = 6; confirmations = 0 })
    else if text_eq network (text "testnet") || text_eq network (text "mainnet")
    then some (record { rpc = none; poll_secs = 12; confirmations = 20 })
    else none

-- The default endpoint, if there is one.
abbrev pub or_default : Option Text → Option (List Text)
or_default none = none
or_default (some url) = some (url ∷ [])

abbrev pub given_or : List Text → Option Text → Option (List Text)
given_or [] fallback = or_default fallback
given_or (url ∷ urls) fallback = some (url ∷ urls)

-- The endpoints that are given, or the default one.
unfoldable pub urls_of : Option Text → Option Text → Option (List Text)
unfolding parse_rpc_urls
urls_of none fallback = or_default fallback
urls_of (some raw) fallback = given_or (parse_rpc_urls raw) fallback

abbrev pub unwrap_confirmations : Option ℕ → ℕ → ℕ
unwrap_confirmations none default' = default'
unwrap_confirmations (some n) default' = n

abbrev pub zero_from_block : Text
zero_from_block =
    text "FROM_BLOCK must be the exact NoxRegistry deployment block; refusing an unbounded replay"

-- The checks after that of the endpoints.
unfoldable pub resolve_with : Args → Defaults → List Text → Result NetworkConfig
resolve_with args defaults urls =
    if args.node_topology_poll_secs == 0
    then err (text "NODE_TOPOLOGY_POLL_SECS must be positive")
    else if args.log_chunk_min == 0 || ltb args.log_chunk_max args.log_chunk_min
    then err (text "LOG_CHUNK_MIN must be positive and not above LOG_CHUNK_MAX")
    else ok (record {
      rpc_urls = urls;
      poll_interval_secs = defaults.poll_secs;
      from_block = args.from_block;
      confirmations = unwrap_confirmations args.confirmations defaults.confirmations;
    })

abbrev pub resolve_urls : Args → Defaults → Option (List Text) → Result NetworkConfig
resolve_urls args defaults none =
    err (text "--rpc-url is required for network '" ++ args.network ++ text "'")
resolve_urls args defaults (some urls) = resolve_with args defaults urls

abbrev pub resolve_network : Args → Option Defaults → Result NetworkConfig
resolve_network args none =
    err (text "Unknown network: " ++ args.network ++ text ". Use localtestnet, testnet, or mainnet")
resolve_network args (some defaults) =
    resolve_urls args defaults (urls_of args.rpc_url defaults.rpc)

unfoldable pub resolve : Args → Result NetworkConfig
unfolding defaults_of urls_of resolve_with
resolve args =
    if args.from_block == 0
    then err zero_from_block
    else resolve_network args (defaults_of args.network)

-- What a resolved configuration guarantees.
pub record IsResolved (args : Args) (config : NetworkConfig) : Type 0 where
  pub bounded_replay : 0 < config.from_block
  pub same_block : config.from_block ≡ args.from_block
  pub some_endpoint : is_empty config.rpc_urls ≡ false
  pub polls : 0 < args.node_topology_poll_secs
  pub chunk_min : 0 < args.log_chunk_min
  pub chunk_order : args.log_chunk_min ≤ args.log_chunk_max

with_urls :
    (args : Args) (defaults : Defaults) (urls : List Text) (config : NetworkConfig)
    → 0 < args.from_block
    → is_empty urls ≡ false
    → resolve_with args defaults urls ≡ ok config
    → IsResolved args config
unfolding resolve_with
with_urls args defaults urls config h n e = ground arith

given_or-some :
    (given : List Text) (fallback : Option Text) (urls : List Text)
    → given_or given fallback ≡ some urls
    → is_empty urls ≡ false
given_or-some [] none urls h = cc
given_or-some [] (some url) urls h = ground arith
given_or-some (u ∷ us) fallback urls h = ground arith

urls_of-some :
    (given fallback : Option Text) (urls : List Text)
    → urls_of given fallback ≡ some urls
    → is_empty urls ≡ false
unfolding urls_of
urls_of-some none fallback urls h = given_or-some [] fallback urls h
urls_of-some (some raw) fallback urls h = given_or-some (parse_rpc_urls raw) fallback urls h

with_some_urls :
    (args : Args) (defaults : Defaults) (urls : Option (List Text)) (config : NetworkConfig)
    → 0 < args.from_block
    → urls_of args.rpc_url defaults.rpc ≡ urls
    → resolve_urls args defaults urls ≡ ok config
    → IsResolved args config
with_some_urls args defaults none config h u e = cc
with_some_urls args defaults (some urls) config h u e =
    with_urls args defaults urls config h (urls_of-some args.rpc_url defaults.rpc urls u) e

with_network :
    (args : Args) (defaults : Option Defaults) (config : NetworkConfig)
    → 0 < args.from_block
    → resolve_network args defaults ≡ ok config
    → IsResolved args config
with_network args none config h e = cc
with_network args (some defaults) config h e = with_some_urls args defaults _ config h refl e

-- A configuration that resolves has a deployment block to start from, an endpoint at least, and a
-- floor of the request size that is positive and not above its limit.
pub resolve-IsResolved :
    (args : Args) (config : NetworkConfig) → resolve args ≡ ok config → IsResolved args config
unfolding resolve
resolve-IsResolved args config e = elim (Bool-cases (args.from_block == 0)) [
  | inl z ↦ let e' = rw z at e in cc
  | inr z ↦ with_network args (defaults_of args.network) config (ground arith) (rw z at e)
]
