-- ===== src/Settlement/Store.antt =====
-- The logs that `sync_once` of src/chain/settlement.rs stores, and the tables of src/db.rs that hold
-- them, keyed by chain, transaction and log index. The amounts are decimal texts; a key's numbers
-- are below 2^63, so that the casts of src/db.rs keep them.
use nox_indexer.Prelude.{
  ℕ, suc, ◌==◌, Bool, true, false, ◌&&◌, ◌||◌, Option, none, some, List, [], ◌∷◌, if◌then◌else◌,
}
use nox_indexer.Prelude.Text.{Text, text_eq}

pub record PaidSettlement : Type 0 where
  pub tx_hash : Text
  pub log_index : ℕ
  pub block_number : ℕ
  pub block_timestamp : ℕ
  pub execution_id : Text
  pub payment_id : Text
  pub exit_address : Text
  pub fee_asset : Text
  pub exit_fee : Text
  pub network_fee : Text
  pub action_target : Text
  pub action_success : Bool

pub record ExitCreditClaim : Type 0 where
  pub tx_hash : Text
  pub log_index : ℕ
  pub block_number : ℕ
  pub block_timestamp : ℕ
  pub exit_address : Text
  pub recipient : Text
  pub asset : Text
  pub amount : Text

pub data SettlementLog : Type 0 where
  settled : PaidSettlement → SettlementLog
  claimed : ExitCreditClaim → SettlementLog

-- `SettlementLog::block_number`
unfoldable pub block_number : SettlementLog → ℕ
block_number (settled s) = s.block_number
block_number (claimed c) = c.block_number

-- `SettlementLog::set_timestamp`
unfoldable pub set_timestamp : ℕ → SettlementLog → SettlementLog
set_timestamp at (settled s) = settled (record s { block_timestamp = at })
set_timestamp at (claimed c) = claimed (record c { block_timestamp = at })

-- The tables: a row is the chain's id, the contract and the event.
pub record Tables : Type 0 where
  pub paid_settlements : List (ℕ × (ℕ × PaidSettlement))
  pub exit_credit_claims : List (ℕ × (ℕ × ExitCreditClaim))

-- Whether a row of the chain, the transaction and the log index is there.
unfoldable pub has_settlement : ℕ → Text → ℕ → List (ℕ × (ℕ × PaidSettlement)) → Bool
has_settlement chain_id hash index [] = false
has_settlement chain_id hash index ((id, (contract, s)) ∷ rows) =
    (id == chain_id && (text_eq s.tx_hash hash && s.log_index == index))
    || has_settlement chain_id hash index rows

unfoldable pub has_claim : ℕ → Text → ℕ → List (ℕ × (ℕ × ExitCreditClaim)) → Bool
has_claim chain_id hash index [] = false
has_claim chain_id hash index ((id, (contract, c)) ∷ rows) =
    (id == chain_id && (text_eq c.tx_hash hash && c.log_index == index))
    || has_claim chain_id hash index rows

-- `insert_paid_settlement`: `ON CONFLICT (chain_id, tx_hash, log_index) DO NOTHING`, and whether a row
-- is new.
unfoldable pub insert_paid_settlement : ℕ → ℕ → PaidSettlement → Tables → Tables × Bool
unfolding has_settlement
insert_paid_settlement chain_id entry_point s db =
    if has_settlement chain_id s.tx_hash s.log_index db.paid_settlements
    then (db, false)
    else (record db { paid_settlements = (chain_id, (entry_point, s)) ∷ db.paid_settlements }, true)

-- `insert_exit_credit_claim`
unfoldable pub insert_exit_credit_claim : ℕ → ℕ → ExitCreditClaim → Tables → Tables × Bool
unfolding has_claim
insert_exit_credit_claim chain_id reward_pool c db =
    if has_claim chain_id c.tx_hash c.log_index db.exit_credit_claims then (db, false) else (
      record db { exit_credit_claims = (chain_id, (reward_pool, c)) ∷ db.exit_credit_claims },
      true,
    )

abbrev pub claim_in : Option ℕ → ℕ → ExitCreditClaim → Tables → Tables × Bool
claim_in none chain_id c db = (db, false)
claim_in (some pool) chain_id c db = insert_exit_credit_claim chain_id pool c db

module _ (chain_id entry_point : ℕ) (reward_pool : Option ℕ) where
  unfoldable pub store_entry : SettlementLog → Tables → Tables × Bool
  unfolding insert_paid_settlement insert_exit_credit_claim
  store_entry (settled s) db = insert_paid_settlement chain_id entry_point s db
  store_entry (claimed c) db = claim_in reward_pool chain_id c db

  abbrev pub count : Bool → ℕ → ℕ
  count true n = suc n
  count false n = n

  -- The loop over the decoded entries of a chunk, whose `failing` entry is refused by the database:
  -- the tables, how many rows are new, and the error if there is one.
  unfoldable pub store_entries :
      (SettlementLog → Option Text) → List SettlementLog → Tables → ℕ → Tables × (ℕ × Option Text)
  unfolding store_entry
  store_entries failing [] db stored = (db, (stored, none))
  store_entries failing (entry ∷ rest) db stored =
      let after = store_entry entry db in
      let later = store_entries failing rest after.0 (count after.1 stored) in
      elim (failing entry) [ some error ↦ (db, (stored, some error)) | none ↦ later ]
