-- ===== src/Settlement/Replay.antt =====
-- A replay of stored events changes nothing.
use nox_indexer.Prelude.{
  ℕ, ◌==◌, ==_iff, ◌≡◌, refl, ap, ◌∙◌, inl, inr, Bool, true, false, ◌&&◌, ◌||◌, Option, none, some,
  List, [], ◌∷◌, if◌then◌else◌, arith, Option-cases,
}
use nox_indexer.Prelude.Text.{Text, text_eq, text_eq_iff}
use nox_indexer.Settlement.Store.{
  PaidSettlement, ExitCreditClaim, SettlementLog, settled, claimed, Tables, has_settlement,
  has_claim, insert_paid_settlement, insert_exit_credit_claim, claim_in, store_entry, count,
  store_entries,
}

same_key : (a : ℕ) (s : Text) (i : ℕ) → (a == a && (text_eq s s && i == i)) ≡ true
same_key a s i = rw ((==_iff a a).1 refl, (text_eq_iff s s).1 refl, (==_iff i i).1 refl) refl

or-true : (a b : Bool) → b ≡ true → (a || b) ≡ true
or-true true b h = refl
or-true false b h = h

or_first : (a b : Bool) → a ≡ true → (a || b) ≡ true
or_first true b h = refl
or_first false b h = cc

module _ (chain_id entry_point : ℕ) (reward_pool : Option ℕ) where
  abbrev claim_stored : Option ℕ → ExitCreditClaim → Tables → Bool
  claim_stored none c db = true
  claim_stored (some pool) c db = has_claim chain_id c.tx_hash c.log_index db.exit_credit_claims

  -- An event has a row, or is a claim without a pool to store it for.
  unfoldable pub is_stored : SettlementLog → Tables → Bool
  unfolding has_settlement has_claim
  is_stored (settled s) db = has_settlement chain_id s.tx_hash s.log_index db.paid_settlements
  is_stored (claimed c) db = claim_stored reward_pool c db

  claim_held :
      (pool : Option ℕ) (c : ExitCreditClaim) (db : Tables)
      → claim_stored pool c db ≡ true
      → claim_in pool chain_id c db ≡ (db, false)
  unfolding insert_exit_credit_claim
  claim_held none c db h = refl
  claim_held (some pool) c db h = rw h refl

  held :
      (entry : SettlementLog) (db : Tables)
      → is_stored entry db ≡ true
      → store_entry chain_id entry_point reward_pool entry db ≡ (db, false)
  unfolding store_entry insert_paid_settlement is_stored
  held (settled s) db h = rw h refl
  held (claimed c) db h = claim_held reward_pool c db h

  abbrev settled_unless : Bool → PaidSettlement → Tables → Tables × Bool
  settled_unless b s db = if b then (db, false) else (
    record db { paid_settlements = (chain_id, (entry_point, s)) ∷ db.paid_settlements },
    true,
  )

  abbrev claim_unless : Bool → ℕ → ExitCreditClaim → Tables → Tables × Bool
  claim_unless b pool c db =
      if b
      then (db, false)
      else (record db { exit_credit_claims = (chain_id, (pool, c)) ∷ db.exit_credit_claims }, true)

  settled_kept :
      (b : Bool) (hash : Text) (index : ℕ) (s : PaidSettlement) (db : Tables)
      → has_settlement chain_id hash index db.paid_settlements ≡ true
      → has_settlement chain_id hash index (settled_unless b s db).0.paid_settlements ≡ true
  unfolding has_settlement
  settled_kept true hash index s db h = h
  settled_kept false hash index s db h = or-true _ _ h

  claim_kept :
      (b : Bool) (pool : ℕ) (hash : Text) (index : ℕ) (c : ExitCreditClaim) (db : Tables)
      → has_claim chain_id hash index db.exit_credit_claims ≡ true
      → has_claim chain_id hash index (claim_unless b pool c db).0.exit_credit_claims ≡ true
  unfolding has_claim
  claim_kept true pool hash index c db h = h
  claim_kept false pool hash index c db h = or-true _ _ h

  settled_now :
      (b : Bool) (s : PaidSettlement) (db : Tables)
      → has_settlement chain_id s.tx_hash s.log_index db.paid_settlements ≡ b
      → has_settlement chain_id s.tx_hash s.log_index (settled_unless b s db).0.paid_settlements
        ≡ true
  unfolding has_settlement
  settled_now true s db h = h
  settled_now false s db h = or_first _ _ (same_key chain_id s.tx_hash s.log_index)

  claim_now :
      (b : Bool) (pool : ℕ) (c : ExitCreditClaim) (db : Tables)
      → has_claim chain_id c.tx_hash c.log_index db.exit_credit_claims ≡ b
      → has_claim chain_id c.tx_hash c.log_index (claim_unless b pool c db).0.exit_credit_claims
        ≡ true
  unfolding has_claim
  claim_now true pool c db h = h
  claim_now false pool c db h = or_first _ _ (same_key chain_id c.tx_hash c.log_index)

  claim_in_now :
      (pool : Option ℕ) (c : ExitCreditClaim) (db : Tables)
      → claim_stored pool c (claim_in pool chain_id c db).0 ≡ true
  unfolding insert_exit_credit_claim
  claim_in_now none c db = refl
  claim_in_now (some pool) c db = claim_now _ pool c db refl

  stored_now :
      (entry : SettlementLog) (db : Tables)
      → is_stored entry (store_entry chain_id entry_point reward_pool entry db).0 ≡ true
  unfolding store_entry insert_paid_settlement is_stored
  stored_now (settled s) db = settled_now _ s db refl
  stored_now (claimed c) db = claim_in_now reward_pool c db

  settled_over_claim :
      (pool : Option ℕ) (c : ExitCreditClaim) (db : Tables)
      → (claim_in pool chain_id c db).0.paid_settlements ≡ db.paid_settlements
  unfolding insert_exit_credit_claim
  settled_over_claim none c db = refl
  settled_over_claim (some pool) c db = ground arith

  claim_over_settled :
      (s : PaidSettlement) (db : Tables)
      → (insert_paid_settlement chain_id entry_point s db).0.exit_credit_claims
        ≡ db.exit_credit_claims
  unfolding insert_paid_settlement
  claim_over_settled s db = ground arith

  claim_stored_over :
      (pool : Option ℕ) (c : ExitCreditClaim) (s : PaidSettlement) (db : Tables)
      → claim_stored pool c db ≡ true
      → claim_stored pool c (insert_paid_settlement chain_id entry_point s db).0 ≡ true
  claim_stored_over none c s db h = refl
  claim_stored_over (some pool) c s db h = rw (claim_over_settled s db) h

  claim_over_claim :
      (pool : Option ℕ) (c d : ExitCreditClaim) (db : Tables)
      → claim_stored pool c db ≡ true
      → claim_stored pool c (claim_in pool chain_id d db).0 ≡ true
  unfolding insert_exit_credit_claim
  claim_over_claim none c d db h = refl
  claim_over_claim (some pool) c d db h = claim_kept _ pool c.tx_hash c.log_index d db h

  -- A stored event stays stored.
  kept :
      (e f : SettlementLog) (db : Tables)
      → is_stored e db ≡ true
      → is_stored e (store_entry chain_id entry_point reward_pool f db).0 ≡ true
  unfolding store_entry insert_paid_settlement is_stored
  kept (settled s) (settled t) db h = settled_kept _ s.tx_hash s.log_index t db h
  kept (settled s) (claimed c) db h = rw (settled_over_claim reward_pool c db) h
  kept (claimed c) (settled t) db h = claim_stored_over reward_pool c t db h
  kept (claimed c) (claimed d) db h = claim_over_claim reward_pool c d db h

  entries_kept :
      (failing : SettlementLog → Option Text) (e : SettlementLog) (entries : List SettlementLog)
      (db : Tables) (n : ℕ)
      → is_stored e db ≡ true
      → is_stored e (store_entries chain_id entry_point reward_pool failing entries db n).0 ≡ true
  unfolding store_entries
  entries_kept failing e [] db n h = h
  entries_kept failing e (f ∷ rest) db n h = elim (Option-cases (failing f)) [
    | inl q ↦ rw (q, store_entries) (entries_kept failing e rest _ _ (kept e f db h))
    | inr (x, q) ↦ rw (q, store_entries) h
  ]

  abbrev pub none_fails : SettlementLog → Option Text
  none_fails entry = none

  any_count :
      (entries : List SettlementLog) (db : Tables) (k l : ℕ)
      → (store_entries chain_id entry_point reward_pool none_fails entries db k).0
        ≡ (store_entries chain_id entry_point reward_pool none_fails entries db l).0
  unfolding store_entries
  any_count [] db k l = refl
  any_count (f ∷ rest) db k l =
      any_count rest (store_entry chain_id entry_point reward_pool f db).0 _ _

  -- A pass over the events of a range that the database cut short, or that succeeded, followed by a
  -- full pass over the same events, leaves the same tables as the full pass alone: no event is stored
  -- twice and none is left out.
  pub store_entries_again :
      (failing : SettlementLog → Option Text) (entries : List SettlementLog) (db : Tables)
      (n k l : ℕ)
      → (store_entries chain_id entry_point reward_pool none_fails entries
          (store_entries chain_id entry_point reward_pool failing entries db n).0
          k).0
        ≡ (store_entries chain_id entry_point reward_pool none_fails entries db l).0
  unfolding store_entries
  store_entries_again failing [] db n k l = refl
  store_entries_again failing (f ∷ rest) db n k l = elim (Option-cases (failing f)) [
    | inr (x, q) ↦ rw (q, store_entries) (any_count (f ∷ rest) db k l)
    | inl q ↦
        let first = store_entry chain_id entry_point reward_pool f db in
        let done =
          (store_entries chain_id entry_point reward_pool failing rest first.0
            (count chain_id entry_point reward_pool first.1 n)).0 in
        let same = held f done (entries_kept failing f rest first.0 _ (stored_now f db)) in
        rw (q, store_entries)
          (ap
              (λ (r : Tables × Bool).
                (store_entries chain_id entry_point reward_pool none_fails rest r.0
                  (count chain_id entry_point reward_pool r.1 k)).0)
              same
            ∙ store_entries_again failing rest first.0 _ k _)
  ]
