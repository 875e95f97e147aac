-- ===== src/Settlement/Merged.antt =====
-- What the joined totals hold for each exit and asset.
use nox_indexer.Prelude.{
  ℕ, ◌≡◌, refl, sym, ap, ◌∙◌, Bool, true, false, ◌&&◌, Option, none, some, List, [], ◌∷◌,
  if◌then◌else◌,
}
use nox_indexer.Prelude.Int.{pos_part}
use nox_indexer.Prelude.Text.{Text, text, text_eq, text_eq_iff}
use nox_indexer.Settlement.Totals.{
  ExitSettlementTotals, SettledTotalsRow, ClaimedTotalsRow, Key, key_eq, key_ltb, Totals, put, get,
  settled_totals, unsettled_totals, entry_or, settled_key, claimed_key, merge_settled, merge_claim,
  merge_claimed, merged_map,
}

key_eq_refl : (k : Key) → key_eq k k ≡ true
key_eq_refl (a, b) = rw ((text_eq_iff a a).1 refl, (text_eq_iff b b).1 refl) refl

and-split : (a b : Bool) → (a && b) ≡ true → (a ≡ true) × (b ≡ true)
and-split true b h = (refl, h)
and-split false b h = cc

key_eq→eq : (k l : Key) → key_eq k l ≡ true → k ≡ l
key_eq→eq (a, b) (c, d) h =
    let (x, y) = and-split (text_eq a c) (text_eq b d) h in
    let e = (text_eq_iff a c).0 x in let f = (text_eq_iff b d).0 y in cc

key_eq→same : (k l n : Key) → key_eq l n ≡ true → key_eq k n ≡ key_eq k l
key_eq→same k l n h = ap (λ x. key_eq k x) (sym (key_eq→eq l n h))

put_cases :
    (lt ln kl kn : Bool) (v w : Option ExitSettlementTotals)
    (later rest : Option ExitSettlementTotals)
    → later ≡ (if kl then v else rest)
    → (ln ≡ true → kn ≡ kl)
    → (kl ≡ true → kn ≡ true → ln ≡ true)
    → (if lt
        then (if kl then v else if kn then w else rest)
        else if ln
        then (if kl then v else rest)
        else if kn
        then w
        else later)
      ≡ (if kl then v else if kn then w else rest)
put_cases true ln kl kn v w later rest e f g = refl
put_cases false true true kn v w later rest e f g = refl
put_cases false true false true v w later rest e f g = let e = f refl in cc
put_cases false true false false v w later rest e f g = refl
put_cases false false true true v w later rest e f g = let e = g refl refl in cc
put_cases false false true false v w later rest e f g = e
put_cases false false false true v w later rest e f g = refl
put_cases false false false false v w later rest e f g = e

get_if :
    (lt ln : Bool) (k l n : Key) (v w : ExitSettlementTotals) (rest later : Totals)
    → get k (if lt then (l, v) ∷ (n, w) ∷ rest else if ln then (l, v) ∷ rest else (n, w) ∷ later)
      ≡ (if lt
          then (if key_eq k l then some v else if key_eq k n then some w else get k rest)
          else if ln
          then (if key_eq k l then some v else get k rest)
          else if key_eq k n
          then some w
          else get k later)
unfolding get
get_if true ln k l n v w rest later = refl
get_if false true k l n v w rest later = refl
get_if false false k l n v w rest later = refl

both_eq : (k l n : Key) → key_eq k l ≡ true → key_eq k n ≡ true → key_eq l n ≡ true
both_eq k l n h g = rw (← key_eq→eq k l h) g

get-put :
    (k l : Key) (v : ExitSettlementTotals) (m : Totals)
    → get k (put l v m) ≡ (if key_eq k l then some v else get k m)
unfolding get put
get-put k l v [] = refl
get-put k l v ((n, w) ∷ rest) =
    get_if (key_ltb l n) (key_eq l n) k l n v w rest (put l v rest)
    ∙ put_cases (key_ltb l n) (key_eq l n) (key_eq k l) (key_eq k n) (some v) (some w)
        (get k (put l v rest)) (get k rest) (get-put k l v rest) (key_eq→same k l n) (both_eq k l n)

-- The entry of one key after the executions' rows: the last row with the key.
unfoldable settled_for :
    Key → Option ExitSettlementTotals → List SettledTotalsRow → Option ExitSettlementTotals
settled_for k found [] = found
settled_for k found (row ∷ rows) =
    settled_for k (if key_eq k (settled_key row) then some (settled_totals row) else found) rows

-- The entry of one key after the claims' rows: the last claim of the key, on the entry found so far
-- or on one without executions.
unfoldable claimed_for :
    Key → Option ExitSettlementTotals → List ClaimedTotalsRow → Option ExitSettlementTotals
claimed_for k found [] = found
claimed_for k found (row ∷ rows) =
    claimed_for k
      (if key_eq k (claimed_key row)
        then some (record (entry_or found (unsettled_totals row)) { claimed = row.claimed })
        else found)
      rows

get-merge_settled :
    (k : Key) (m : Totals) (rows : List SettledTotalsRow)
    → get k (merge_settled m rows) ≡ settled_for k (get k m) rows
unfolding merge_settled settled_for
get-merge_settled k m [] = refl
get-merge_settled k m (row ∷ rows) =
    get-merge_settled k (put (settled_key row) (settled_totals row) m) rows
    ∙ ap (λ found. settled_for k found rows) (get-put k (settled_key row) (settled_totals row) m)

if_congr :
    (b : Bool) (x y r : Option ExitSettlementTotals)
    → (b ≡ true → x ≡ y)
    → (if b then x else r) ≡ (if b then y else r)
if_congr true x y r h = h refl
if_congr false x y r h = refl

get-merge_claim :
    (k : Key) (m : Totals) (row : ClaimedTotalsRow)
    → get k (merge_claim m row) ≡ (
        if key_eq k (claimed_key row)
        then some (record (entry_or (get k m) (unsettled_totals row)) { claimed = row.claimed })
        else get k m)
unfolding merge_claim
get-merge_claim k m row =
    get-put k (claimed_key row) _ m
    ∙ if_congr (key_eq k (claimed_key row)) _ _ (get k m) (λ same.
      ap (λ l. some (record (entry_or (get l m) (unsettled_totals row)) { claimed = row.claimed }))
        (sym (key_eq→eq k (claimed_key row) same)))

get-merge_claimed :
    (k : Key) (m : Totals) (rows : List ClaimedTotalsRow)
    → get k (merge_claimed m rows) ≡ claimed_for k (get k m) rows
unfolding merge_claimed claimed_for
get-merge_claimed k m [] = refl
get-merge_claimed k m (row ∷ rows) =
    get-merge_claimed k (merge_claim m row) rows
    ∙ ap (λ found. claimed_for k found rows) (get-merge_claim k m row)

merged_map_for :
    (settled : List SettledTotalsRow) (claimed : List ClaimedTotalsRow) (k : Key)
    → get k (merged_map settled claimed) ≡ claimed_for k (settled_for k none settled) claimed
unfolding merged_map get
merged_map_for settled claimed k =
    get-merge_claimed k (merge_settled [] settled) claimed
    ∙ ap (λ found. claimed_for k found claimed) (get-merge_settled k [] settled)

module _ (exit asset : Text) where
  -- The last row of executions with an exit and an asset, or the one that was there before.
  abbrev pub last_settled :
      Option SettledTotalsRow → List SettledTotalsRow → Option SettledTotalsRow
  last_settled found [] = found
  last_settled found (row ∷ rows) =
      last_settled
        (if text_eq exit row.exit_address && text_eq asset row.fee_asset then some row else found)
        rows

  -- The last row of claims with them.
  abbrev pub last_claimed :
      Option ClaimedTotalsRow → List ClaimedTotalsRow → Option ClaimedTotalsRow
  last_claimed found [] = found
  last_claimed found (row ∷ rows) =
      last_claimed
        (if text_eq exit row.exit_address && text_eq asset row.asset then some row else found) rows

  abbrev totals_with : ℕ → Text → Text → Text → ExitSettlementTotals
  totals_with executions exit_fees network_fees claimed = record {
    exit_address = exit;
    fee_asset = asset;
    executions = executions;
    exit_fees = exit_fees;
    network_fees = network_fees;
    claimed = claimed;
    claimable = none;
  }

  -- The entry of the exit and the asset with these two rows.
  abbrev pub joined :
      Option SettledTotalsRow → Option ClaimedTotalsRow → Option ExitSettlementTotals
  joined none none = none
  joined (some s) none =
      some (totals_with (pos_part s.executions) s.exit_fees s.network_fees (text "0"))
  joined none (some c) = some (totals_with 0 (text "0") (text "0") c.claimed)
  joined (some s) (some c) =
      some (totals_with (pos_part s.executions) s.exit_fees s.network_fees c.claimed)

  same_names : (a b : Text) → (text_eq exit a && text_eq asset b) ≡ true → (a ≡ exit) × (b ≡ asset)
  same_names a b h =
      let (x, y) = and-split (text_eq exit a) (text_eq asset b) h in
      (sym ((text_eq_iff exit a).0 x), sym ((text_eq_iff asset b).0 y))

  settled_step :
      (found : Option SettledTotalsRow) (row : SettledTotalsRow) (b : Bool)
      → (text_eq exit row.exit_address && text_eq asset row.fee_asset) ≡ b
      → (if b then some (settled_totals row) else joined found none)
        ≡ joined (if b then some row else found) none
  settled_step found row false h = refl
  settled_step found row true h =
      let (x, y) = same_names row.exit_address row.fee_asset h in rw (x, y) refl

  settled_for-joined :
      (found : Option SettledTotalsRow) (rows : List SettledTotalsRow)
      → settled_for (exit, asset) (joined found none) rows ≡ joined (last_settled found rows) none
  unfolding settled_for
  settled_for-joined found [] = refl
  settled_for-joined found (row ∷ rows) =
      let b = text_eq exit row.exit_address && text_eq asset row.fee_asset in
      ap (λ o. settled_for (exit, asset) o rows) (settled_step found row b refl)
      ∙ settled_for-joined (if b then some row else found) rows

  claimed_here :
      (s : Option SettledTotalsRow) (found : Option ClaimedTotalsRow) (row : ClaimedTotalsRow)
      → row.exit_address ≡ exit
      → row.asset ≡ asset
      → some (record (entry_or (joined s found) (unsettled_totals row)) { claimed = row.claimed })
        ≡ joined s (some row)
  claimed_here none none row x y = rw (x, y) refl
  claimed_here none (some c) row x y = refl
  claimed_here (some t) none row x y = refl
  claimed_here (some t) (some c) row x y = refl

  claimed_step :
      (s : Option SettledTotalsRow) (found : Option ClaimedTotalsRow) (row : ClaimedTotalsRow)
      (b : Bool)
      → (text_eq exit row.exit_address && text_eq asset row.asset) ≡ b
      → (if b
          then some
              (record (entry_or (joined s found) (unsettled_totals row)) { claimed = row.claimed })
          else joined s found)
        ≡ joined s (if b then some row else found)
  claimed_step s found row false h = refl
  claimed_step s found row true h =
      let (x, y) = same_names row.exit_address row.asset h in claimed_here s found row x y

  claimed_for-joined :
      (s : Option SettledTotalsRow) (found : Option ClaimedTotalsRow) (rows : List ClaimedTotalsRow)
      → claimed_for (exit, asset) (joined s found) rows ≡ joined s (last_claimed found rows)
  unfolding claimed_for
  claimed_for-joined s found [] = refl
  claimed_for-joined s found (row ∷ rows) =
      let b = text_eq exit row.exit_address && text_eq asset row.asset in
      ap (λ o. claimed_for (exit, asset) o rows) (claimed_step s found row b refl)
      ∙ claimed_for-joined s (if b then some row else found) rows

  -- For every exit and asset, the joined totals hold the executions and the fees of the last
  -- aggregate of executions with that exit and fee asset, or zero, and what is claimed by the last
  -- aggregate of claims with that exit and asset, or zero. They have no entry where neither has a row.
  pub merged_map-get :
      (settled : List SettledTotalsRow) (claimed : List ClaimedTotalsRow)
      → get (exit, asset) (merged_map settled claimed)
        ≡ joined (last_settled none settled) (last_claimed none claimed)
  merged_map-get settled claimed =
      merged_map_for settled claimed (exit, asset)
      ∙ ap (λ o. claimed_for (exit, asset) o claimed) (settled_for-joined none settled)
      ∙ claimed_for-joined (last_settled none settled) none claimed
