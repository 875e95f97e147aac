-- ===== src/Settlement/Tests.antt =====
-- Two exits, one of them without an execution.
use nox_indexer.Prelude.{
  ℕ, if◌then◌else◌, ◌==◌, ◌≡◌, refl, true, Option, none, some, List, [], ◌∷◌, All,
}
use nox_indexer.Prelude.Int.{pos}
use nox_indexer.Prelude.Text.{Text, text}
use nox_indexer.Prelude.Results.{ok, err}
use nox_indexer.Seed.Cache.{text_ltb}
use nox_indexer.Settlement.Totals.{
  SettledTotalsRow, ClaimedTotalsRow, key_ltb, put, get, merge_settled, merge_claim, merge_claimed,
  merged_map, merge_totals, total_executions,
}
use nox_indexer.Settlement.Merged.{joined, last_settled, last_claimed, merged_map-get}
use nox_indexer.Settlement.Store.{SettlementLog, settled, claimed, Tables, store_entries}
use nox_indexer.Settlement.Replay.{none_fails, store_entries_again}
use nox_indexer.Settlement.Summary.{
  SettlementStatus, Address, PoolReader, assets_of, insert_asset, read_claimables, read_gauge,
  read_gauges, read_pool_gauges, refresh_summary,
}
use nox_indexer.Settlement.Dated.{IsReadAt, IsPublished, refresh_summary-IsReadAt}

abbrev settled_rows : List SettledTotalsRow
settled_rows =
    record {
      exit_address = text "e1";
      fee_asset = text "u";
      executions = pos 3;
      exit_fees = text "30";
      network_fees = text "3";
    }
    ∷ []

abbrev claimed_rows : List ClaimedTotalsRow
claimed_rows = record { exit_address = text "e0"; asset = text "u"; claimed = text "8" } ∷ []

merged_map-get_example :
    get (text "e0", text "u") (merged_map settled_rows claimed_rows)
    ≡ joined
        (text "e0")
        (text "u")
        (last_settled (text "e0") (text "u") none settled_rows)
        (last_claimed (text "e0") (text "u") none claimed_rows)
merged_map-get_example = merged_map-get (text "e0") (text "u") settled_rows claimed_rows

abbrev parse_one : Text → Option Address
parse_one t = some 1

-- The claimable amounts can be read, the pool's balances cannot.
abbrev half_read : PoolReader
half_read = record {
  claimable_exit = λ exit asset block. ok (text "5");
  total_collected = λ asset block. err (text "down");
  total_distributed = λ asset block. ok (text "0");
  network_outstanding = λ asset block. ok (text "0");
  exit_outstanding = λ asset block. ok (text "0");
}

abbrev before : SettlementStatus
before = record {
  enabled = true;
  entry_point = none;
  reward_pool = none;
  last_block = some 50;
  last_synced_at_ms = none;
  executions = 0;
  exits = [];
  pool = [];
  pool_read_block = some 40;
  last_error = none;
}

abbrev refreshed : SettlementStatus
refreshed = record before {
  executions = 3;
  exits =
      record {
        exit_address = text "e0";
        fee_asset = text "u";
        executions = 0;
        exit_fees = text "0";
        network_fees = text "0";
        claimed = text "8";
        claimable = some (text "5");
      }
      ∷ record {
        exit_address = text "e1";
        fee_asset = text "u";
        executions = 3;
        exit_fees = text "30";
        network_fees = text "3";
        claimed = text "0";
        claimable = some (text "5");
      }
      ∷ [];
}

-- The amounts of block 50 are published with the block 40 of the earlier balances.
amounts_newer :
    refresh_summary parse_one half_read true (ok 1) (ok settled_rows) (ok claimed_rows) before
    ≡ ok refreshed
unfolding refresh_summary merge_totals merged_map merge_settled merge_claimed merge_claim put get
    key_ltb text_ltb total_executions read_pool_gauges read_claimables read_gauges read_gauge
    assets_of insert_asset
amounts_newer = refl

all_read :
    (read_claimables parse_one half_read 50 (merge_totals settled_rows claimed_rows)).0 ≡ none
unfolding merge_totals merged_map merge_settled merge_claimed merge_claim put get key_ltb text_ltb
    read_claimables
all_read = refl

refresh_summary-IsReadAt_example :
    All (IsReadAt parse_one half_read 50) refreshed.exits
    × IsPublished parse_one half_read 50 before refreshed (
        read_gauges parse_one half_read 50 (
          assets_of
            (read_claimables parse_one half_read 50 (merge_totals settled_rows claimed_rows)).1))
refresh_summary-IsReadAt_example =
    refresh_summary-IsReadAt parse_one half_read 1 50 settled_rows claimed_rows before refreshed
      refl all_read amounts_newer

abbrev paid : ℕ → SettlementLog
paid index = settled (record {
  tx_hash = text "0x1";
  log_index = index;
  block_number = 9;
  block_timestamp = 90;
  execution_id = [];
  payment_id = [];
  exit_address = text "e1";
  fee_asset = text "u";
  exit_fee = text "10";
  network_fee = text "1";
  action_target = [];
  action_success = true;
})

abbrev empty : Tables
empty = record { paid_settlements = []; exit_credit_claims = [] }

-- The database refuses the log with the index 1.
abbrev refusing : SettlementLog → Option Text
refusing (settled s) = if s.log_index == 1 then some (text "down") else none
refusing (claimed c) = none

store_entries_again_example :
    (store_entries 1 7 none
      (none_fails 1 7 none)
      (paid 0 ∷ paid 1 ∷ [])
      (store_entries 1 7 none refusing (paid 0 ∷ paid 1 ∷ []) empty 0).0
      0).0
    ≡ (store_entries 1 7 none (none_fails 1 7 none) (paid 0 ∷ paid 1 ∷ []) empty 0).0
store_entries_again_example =
    store_entries_again 1 7 none refusing (paid 0 ∷ paid 1 ∷ []) empty 0 0 0
