-- ===== src/Settlement/Totals.antt =====
-- The per-exit totals of src/chain/settlement.rs and their join. A `BTreeMap` is its list of entries in
-- the order of the keys.
use nox_indexer.Prelude.{
  ℕ, ◌+◌, ◌%◌, Bool, ◌&&◌, ◌||◌, Option, none, some, List, [], ◌∷◌, if◌then◌else◌,
}
use nox_indexer.Prelude.Int.{ℤ, pos_part}
use nox_indexer.Prelude.Words.{u64_mod}
use nox_indexer.Prelude.Text.{Text, text, text_eq}
use nox_indexer.Seed.Cache.{text_ltb}

pub record ExitSettlementTotals : Type 0 where
  pub exit_address : Text
  pub fee_asset : Text
  pub executions : ℕ
  pub exit_fees : Text
  pub network_fees : Text
  pub claimed : Text
  pub claimable : Option Text

pub record SettledTotalsRow : Type 0 where
  pub exit_address : Text
  pub fee_asset : Text
  pub executions : ℤ
  pub exit_fees : Text
  pub network_fees : Text

pub record ClaimedTotalsRow : Type 0 where
  pub exit_address : Text
  pub asset : Text
  pub claimed : Text

-- An exit and an asset.
abbrev pub Key : Type 0
Key = Text × Text

abbrev pub key_eq : Key → Key → Bool
key_eq (a, b) (c, d) = text_eq a c && text_eq b d

-- The lexicographic order of the pairs.
unfoldable pub key_ltb : Key → Key → Bool
unfolding text_ltb
key_ltb (a, b) (c, d) = text_ltb a c || (text_eq a c && text_ltb b d)

abbrev pub Totals : Type 0
Totals = List (Key × ExitSettlementTotals)

-- `BTreeMap::insert`
unfoldable pub put : Key → ExitSettlementTotals → Totals → Totals
unfolding key_ltb
put k v [] = (k, v) ∷ []
put k v ((l, w) ∷ rest) =
    let later = put k v rest in
    if key_ltb k l
    then (k, v) ∷ (l, w) ∷ rest
    else if key_eq k l
    then (k, v) ∷ rest
    else (l, w) ∷ later

-- `BTreeMap::get`
unfoldable pub get : Key → Totals → Option ExitSettlementTotals
get k [] = none
get k ((l, w) ∷ rest) = if key_eq k l then some w else get k rest

abbrev pub zero_text : Text
zero_text = text "0"

abbrev pub settled_totals : SettledTotalsRow → ExitSettlementTotals
settled_totals row = record {
  exit_address = row.exit_address;
  fee_asset = row.fee_asset;
  executions = pos_part row.executions;
  exit_fees = row.exit_fees;
  network_fees = row.network_fees;
  claimed = zero_text;
  claimable = none;
}

-- A pair without an execution under this entry point.
abbrev pub unsettled_totals : ClaimedTotalsRow → ExitSettlementTotals
unsettled_totals row = record {
  exit_address = row.exit_address;
  fee_asset = row.asset;
  executions = 0;
  exit_fees = zero_text;
  network_fees = zero_text;
  claimed = zero_text;
  claimable = none;
}

abbrev pub entry_or : Option ExitSettlementTotals → ExitSettlementTotals → ExitSettlementTotals
entry_or none v = v
entry_or (some w) v = w

abbrev pub settled_key : SettledTotalsRow → Key
settled_key row = (row.exit_address, row.fee_asset)

abbrev pub claimed_key : ClaimedTotalsRow → Key
claimed_key row = (row.exit_address, row.asset)

unfoldable pub merge_settled : Totals → List SettledTotalsRow → Totals
unfolding put
merge_settled merged [] = merged
merge_settled merged (row ∷ rows) =
    merge_settled (put (settled_key row) (settled_totals row) merged) rows

-- `entry(key).or_insert_with(…).claimed = row.claimed`
unfoldable pub merge_claim : Totals → ClaimedTotalsRow → Totals
unfolding put get
merge_claim merged row =
    put (claimed_key row)
      (record (entry_or (get (claimed_key row) merged) (unsettled_totals row)) {
        claimed = row.claimed;
      })
      merged

unfoldable pub merge_claimed : Totals → List ClaimedTotalsRow → Totals
unfolding merge_claim
merge_claimed merged [] = merged
merge_claimed merged (row ∷ rows) = merge_claimed (merge_claim merged row) rows

abbrev pub into_values : Totals → List ExitSettlementTotals
into_values [] = []
into_values ((k, v) ∷ rest) = v ∷ into_values rest

unfoldable pub merged_map : List SettledTotalsRow → List ClaimedTotalsRow → Totals
unfolding merge_settled merge_claimed
merged_map settled claimed = merge_claimed (merge_settled [] settled) claimed

unfoldable pub merge_totals :
    List SettledTotalsRow → List ClaimedTotalsRow → List ExitSettlementTotals
unfolding merged_map
merge_totals settled claimed = into_values (merged_map settled claimed)

-- The executions of all exits, as a `u64`.
unfoldable pub total_executions : List ExitSettlementTotals → ℕ
total_executions [] = 0
total_executions (t ∷ rest) = (t.executions + total_executions rest) % u64_mod
