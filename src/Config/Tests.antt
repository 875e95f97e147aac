-- ===== src/Config/Tests.antt =====
-- A configuration for the main network.
use nox_indexer.Prelude.{◌≡◌, refl, none, some, [], ◌∷◌}
use nox_indexer.Prelude.Text.{text}
use nox_indexer.Prelude.Results.{ok}
use nox_indexer.Rpc.Urls.{parse_rpc_urls, trim, trim_start, reverse_onto, split_commas, non_empty}
use nox_indexer.Config.Network.{
  Args, NetworkConfig, defaults_of, urls_of, resolve_with, resolve, IsResolved, resolve-IsResolved,
}

abbrev mainnet : Args
mainnet = record {
  network = text "mainnet";
  rpc_url = some (text "https://a.example, https://b.example,");
  from_block = 7;
  confirmations = none;
  node_topology_poll_secs = 60;
  log_chunk_min = 10;
  log_chunk_max = 5_000;
}

abbrev resolved : NetworkConfig
resolved = record {
  rpc_urls = text "https://a.example" ∷ text "https://b.example" ∷ [];
  poll_interval_secs = 12;
  from_block = 7;
  confirmations = 20;
}

mainnet_resolves : resolve mainnet ≡ ok resolved
unfolding resolve defaults_of urls_of resolve_with parse_rpc_urls trim trim_start reverse_onto
    split_commas non_empty
mainnet_resolves = refl

resolve-IsResolved_example : IsResolved mainnet resolved
resolve-IsResolved_example = resolve-IsResolved mainnet resolved mainnet_resolves
