-- ===== src/Settlement/Summary.antt =====
-- `refresh_summary` and `read_pool_gauges` of src/chain/settlement.rs. The rows of the aggregates and
-- the pool's views, each call retried, are parameters.
use nox_indexer.Prelude.{ℕ, Bool, true, false, Option, none, some, List, [], ◌∷◌, if◌then◌else◌}
use nox_indexer.Prelude.Int.{ℤ}
use nox_indexer.Prelude.Text.{Text, text, text_eq}
use nox_indexer.Prelude.Results.{Result, ok, err, ◌>>=◌, labelled}
use nox_indexer.Seed.Cache.{text_ltb}
use nox_indexer.Settlement.Totals.{
  ExitSettlementTotals, SettledTotalsRow, ClaimedTotalsRow, merge_totals, total_executions,
}

pub record PoolAssetGauge : Type 0 where
  pub asset : Text
  pub total_collected : Text
  pub total_distributed : Text
  pub network_outstanding : Text
  pub exit_outstanding : Text

pub record SettlementStatus : Type 0 where
  pub enabled : Bool
  pub entry_point : Option Text
  pub reward_pool : Option Text
  pub last_block : Option ℕ
  pub last_synced_at_ms : Option ℤ
  pub executions : ℕ
  pub exits : List ExitSettlementTotals
  pub pool : List PoolAssetGauge
  pub pool_read_block : Option ℕ
  pub last_error : Option Text

-- A contract address, as its number.
abbrev pub Address : Type 0
Address = ℕ

-- The views of the reward pool at a block.
pub record PoolReader : Type 0 where
  pub claimable_exit : Address → Address → ℕ → Result Text
  pub total_collected : Address → ℕ → Result Text
  pub total_distributed : Address → ℕ → Result Text
  pub network_outstanding : Address → ℕ → Result Text
  pub exit_outstanding : Address → ℕ → Result Text

-- The set of the exits' assets, in order.
unfoldable pub insert_asset : Text → List Text → List Text
unfolding text_ltb
insert_asset a [] = a ∷ []
insert_asset a (b ∷ rest) =
    let later = insert_asset a rest in
    if text_ltb a b then a ∷ b ∷ rest else if text_eq a b then b ∷ rest else b ∷ later

unfoldable pub assets_of : List ExitSettlementTotals → List Text
unfolding insert_asset
assets_of [] = []
assets_of (t ∷ rest) = insert_asset t.fee_asset (assets_of rest)

module _ (parse_address : Text → Option Address) (pool : PoolReader) where
  -- What a pass over the exits leaves in them, with the error that stopped it.
  abbrev pub Claimables : Type 0
  Claimables = Option Text × List ExitSettlementTotals

  abbrev pub set_claimable : ExitSettlementTotals → Text → ExitSettlementTotals
  set_claimable t amount = record t { claimable = some amount }

  abbrev pub prepend : ExitSettlementTotals → Claimables → Claimables
  prepend t (error, rest) = (error, t ∷ rest)

  abbrev pub claimable_step :
      ExitSettlementTotals → Result Text → List ExitSettlementTotals → Claimables → Claimables
  claimable_step t (ok amount) untouched later = prepend (set_claimable t amount) later
  claimable_step t (err error) untouched later = (some error, t ∷ untouched)

  -- One exit: skipped unless both of its addresses parse.
  abbrev pub claimable_entry :
      Option Address
      → Option Address
      → ExitSettlementTotals
      → ℕ
      → List ExitSettlementTotals
      → Claimables
      → Claimables
  claimable_entry none asset t block untouched later = prepend t later
  claimable_entry (some exit) none t block untouched later = prepend t later
  claimable_entry (some exit) (some asset) t block untouched later =
      claimable_step t (pool.claimable_exit exit asset block) untouched later

  -- The loop over `exits.iter_mut()`, which `?` leaves at the first failed read.
  unfoldable pub read_claimables : ℕ → List ExitSettlementTotals → Claimables
  read_claimables block [] = (none, [])
  read_claimables block (t ∷ rest) =
      claimable_entry (parse_address t.exit_address) (parse_address t.fee_asset) t block rest
        (read_claimables block rest)

  unfoldable pub read_gauge : ℕ → Text → Address → Result PoolAssetGauge
  read_gauge block asset_text asset = pool.total_collected asset block >>= λ total_collected.
      pool.total_distributed asset block >>= λ total_distributed.
      pool.network_outstanding asset block >>= λ network_outstanding.
      pool.exit_outstanding asset block >>= λ exit_outstanding. ok (record {
        asset = asset_text;
        total_collected = total_collected;
        total_distributed = total_distributed;
        network_outstanding = network_outstanding;
        exit_outstanding = exit_outstanding;
      })

  abbrev pub gauge_entry :
      Option Address → ℕ → Text → Result (List PoolAssetGauge) → Result (List PoolAssetGauge)
  gauge_entry none block asset_text later = later
  gauge_entry (some asset) block asset_text later =
      read_gauge block asset_text asset >>= λ gauge. later >>= λ gauges. ok (gauge ∷ gauges)

  unfoldable pub read_gauges : ℕ → List Text → Result (List PoolAssetGauge)
  read_gauges block [] = ok []
  read_gauges block (a ∷ rest) = gauge_entry (parse_address a) block a (read_gauges block rest)

  abbrev pub gauges_after :
      ℕ → Claimables → Result (List PoolAssetGauge) × List ExitSettlementTotals
  gauges_after block (some error, exits) = (err error, exits)
  gauges_after block (none, exits) = (read_gauges block (assets_of exits), exits)

  -- The gauges, and the exits as the reads left them.
  unfoldable pub read_pool_gauges :
      ℕ → List ExitSettlementTotals → Result (List PoolAssetGauge) × List ExitSettlementTotals
  unfolding read_claimables read_gauges assets_of
  read_pool_gauges block exits = gauges_after block (read_claimables block exits)

  -- What is published: new balances with their block, or the previous ones after a failed read.
  abbrev pub publish :
      SettlementStatus
      → ℕ
      → ℕ
      → Result (List PoolAssetGauge) × List ExitSettlementTotals
      → SettlementStatus
  publish status executions block (ok gauges, exits) = record status {
    executions = executions;
    exits = exits;
    pool = gauges;
    pool_read_block = some block;
  }
  publish status executions block (err error, exits) = record status {
    executions = executions;
    exits = exits;
  }

  -- The exits are read only with a pool configured and a block stored.
  abbrev pub summarized :
      Bool → Option ℕ → SettlementStatus → List ExitSettlementTotals → SettlementStatus
  summarized false read_block status exits = record status {
    executions = total_executions exits;
    exits = exits;
  }
  summarized true none status exits = record status {
    executions = total_executions exits;
    exits = exits;
  }
  summarized true (some block) status exits =
      publish status (total_executions exits) block (read_pool_gauges block exits)

  abbrev pub load_totals : Text
  load_totals = text "load settlement totals: "

  -- `settled` and `claimed` are the answers of the database; without a pool the claims are not asked
  -- for.
  unfoldable pub refresh_summary :
      Bool
      → Result ℕ
      → Result (List SettledTotalsRow)
      → Result (List ClaimedTotalsRow)
      → SettlementStatus
      → Result SettlementStatus
  unfolding merge_totals read_pool_gauges total_executions
  refresh_summary has_pool chain_id settled claimed status = chain_id >>= λ id.
      labelled load_totals settled >>= λ settled'.
      (if has_pool then labelled load_totals claimed else ok []) >>= λ claimed'.
      ok (summarized has_pool status.last_block status (merge_totals settled' claimed'))
