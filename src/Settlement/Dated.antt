-- ===== src/Settlement/Dated.antt =====
-- At which block the published figures of the pool were read.
use nox_indexer.Prelude.{
  ℕ, ◌≡◌, refl, sym, subst, ◌∙◌, true, Option, none, some, List, [], ◌∷◌, All,
}
use nox_indexer.Prelude.Text.{Text}
use nox_indexer.Prelude.Results.{Result, ok, err}
use nox_indexer.Settlement.Totals.{
  ExitSettlementTotals, SettledTotalsRow, ClaimedTotalsRow, merge_totals,
}
use nox_indexer.Settlement.Summary.{
  SettlementStatus, PoolAssetGauge, Address, PoolReader, Claimables, assets_of, claimable_step,
  claimable_entry, read_claimables, read_gauges, read_pool_gauges, gauges_after, publish,
  summarized, refresh_summary,
}

ok_injective : {a b : SettlementStatus} → ok a ≡ ok b → a ≡ b
ok_injective h = cc

module _ (parse_address : Text → Option Address) (pool : PoolReader) where
  -- The claimable amount of an exit was read at `block`, if its addresses parse.
  pub data IsReadAt (block : ℕ) (t : ExitSettlementTotals) : Type 0 where
    exit_unparsed : parse_address t.exit_address ≡ none → IsReadAt block t
    asset_unparsed : parse_address t.fee_asset ≡ none → IsReadAt block t
    read :
        (exit asset : Address) (amount : Text)
        → parse_address t.exit_address ≡ some exit
        → parse_address t.fee_asset ≡ some asset
        → pool.claimable_exit exit asset block ≡ ok amount
        → t.claimable ≡ some amount
        → IsReadAt block t

  step_read :
      (block : ℕ) (t : ExitSettlementTotals) (rest : List ExitSettlementTotals)
      (later : Claimables parse_address pool) (exit asset : Address) (r : Result Text)
      → parse_address t.exit_address ≡ some exit
      → parse_address t.fee_asset ≡ some asset
      → pool.claimable_exit exit asset block ≡ r
      → (claimable_step parse_address pool t r rest later).0 ≡ none
      → (later.0 ≡ none → All (IsReadAt block) later.1)
      → All (IsReadAt block) (claimable_step parse_address pool t r rest later).1
  step_read block t rest later x a (ok amount) e f g n h = (read x a amount e f g refl, h n)
  step_read block t rest later x a (err error) e f g n h = cc

  entry_read :
      (block : ℕ) (t : ExitSettlementTotals) (rest : List ExitSettlementTotals)
      (later : Claimables parse_address pool) (exit asset : Option Address)
      → parse_address t.exit_address ≡ exit
      → parse_address t.fee_asset ≡ asset
      → (claimable_entry parse_address pool exit asset t block rest later).0 ≡ none
      → (later.0 ≡ none → All (IsReadAt block) later.1)
      → All (IsReadAt block) (claimable_entry parse_address pool exit asset t block rest later).1
  entry_read block t rest later none asset e f n h = (exit_unparsed e, h n)
  entry_read block t rest later (some x) none e f n h = (asset_unparsed f, h n)
  entry_read block t rest later (some x) (some a) e f n h =
      step_read block t rest later x a _ e f refl n h

  -- A pass over the exits without a failed read reads them all at its block.
  read_claimables-IsReadAt :
      (block : ℕ) (exits : List ExitSettlementTotals)
      → (read_claimables parse_address pool block exits).0 ≡ none
      → All (IsReadAt block) (read_claimables parse_address pool block exits).1
  unfolding read_claimables
  read_claimables-IsReadAt block [] n = tt
  read_claimables-IsReadAt block (t ∷ rest) n =
      entry_read block t rest (read_claimables parse_address pool block rest) _ _ refl refl n
        (read_claimables-IsReadAt block rest)

  -- The balances of a published status: of this read with its block, or those of the status before.
  abbrev pub IsPublished :
      ℕ → SettlementStatus → SettlementStatus → Result (List PoolAssetGauge) → Type 0
  IsPublished block before after (ok gauges) =
      (after.pool ≡ gauges) × (after.pool_read_block ≡ some block)
  IsPublished block before after (err error) =
      (after.pool ≡ before.pool) × (after.pool_read_block ≡ before.pool_read_block)

  published :
      (block executions : ℕ) (status : SettlementStatus) (gauges : Result (List PoolAssetGauge))
      (exits : List ExitSettlementTotals)
      → ((publish parse_address pool status executions block (gauges, exits)).exits ≡ exits)
        × IsPublished block status
            (publish parse_address pool status executions block (gauges, exits))
            gauges
  published block executions status (ok g) exits = (refl, (refl, refl))
  published block executions status (err e) exits = (refl, (refl, refl))

  after_pass :
      (block executions : ℕ) (status : SettlementStatus) (c : Claimables parse_address pool)
      → c.0 ≡ none
      → All (IsReadAt block) c.1
      → All
          (IsReadAt block)
          (publish parse_address pool status executions block
            (gauges_after parse_address pool block c)).exits
        × IsPublished block status
            (publish parse_address pool status executions block
              (gauges_after parse_address pool block c))
            (read_gauges parse_address pool block (assets_of c.1))
  after_pass block executions status (none, exits) n h =
      let (e, p) =
        published block executions status (read_gauges parse_address pool block (assets_of exits))
          exits in
      (subst (λ xs. All (IsReadAt block) xs) (sym e) h, p)
  after_pass block executions status (some x, exits) n h = cc

  -- When every claimable amount is read, the published exits all carry amounts read at the last stored
  -- block. The balances and `pool_read_block` are of that block only if their own reads succeed too; if
  -- one fails, `pool_read_block` stays that of an earlier refresh although the amounts are newer.
  pub refresh_summary-IsReadAt :
      (id block : ℕ) (settled : List SettledTotalsRow) (claimed : List ClaimedTotalsRow)
      (status after : SettlementStatus)
      → status.last_block ≡ some block
      → (read_claimables parse_address pool block (merge_totals settled claimed)).0 ≡ none
      → refresh_summary parse_address pool true (ok id) (ok settled) (ok claimed) status ≡ ok after
      → All (IsReadAt block) after.exits
        × IsPublished block status after (
            read_gauges parse_address pool block (
              assets_of
                (read_claimables parse_address pool block (merge_totals settled claimed)).1))
  unfolding refresh_summary read_pool_gauges
  refresh_summary-IsReadAt id block settled claimed status after b n h =
      let blocks = read_claimables parse_address pool block (merge_totals settled claimed) in
      let same : refresh_summary parse_address pool true (ok id) (ok settled) (ok claimed) status
          ≡ ok (
              summarized parse_address pool true (some block) status
                (merge_totals settled claimed)) =
        rw b refl in
      let e : summarized parse_address pool true (some block) status (merge_totals settled claimed)
          ≡ after =
        ok_injective (sym same ∙ h) in
      subst
        (λ s.
          All (IsReadAt block) s.exits
          × IsPublished block status s (read_gauges parse_address pool block (assets_of blocks.1)))
        e
        (after_pass block _ status blocks n
          (read_claimables-IsReadAt block (merge_totals settled claimed) n))
