-- ===== src/Discovery/Rows.antt =====
-- What the statements of a reconciliation leave in the tables.
use Prim.Native.Nat
use nox_indexer.Prelude.{
  ℕ, ==_iff, ◌≡◌, refl, inl, inr, Bool, true, false, ◌||◌, Option, none, some, List, [], ◌∷◌,
  if◌then◌else◌, Bool-cases,
}
use nox_indexer.Prelude.Text.{Text, text_eq, to_lowercase}
use nox_indexer.Prelude.Maps.{text_eq_sym, keys, Map, get, remove, text_eq_refl, option_map}
use nox_indexer.Sync.Status.{i64_max}
use nox_indexer.Nodes.Targets.{IpAddr}
use nox_indexer.Nodes.State.{NodeState, NodeRow}
use nox_indexer.Discovery.State.{
  Checkpoint, is_checkpoint_of, checkpoint_at, checkpoint_put, get_checkpoint, set_checkpoint,
  is_kept, pruned, is_registered_row, loaded_row,
}

put_head :
    (b : Bool) (id block : ℕ) (registry : Text) (row : Checkpoint) (rows later : List Checkpoint)
    → is_checkpoint_of id registry row ≡ b
    → checkpoint_at id registry later ≡ some block
    → checkpoint_at id registry
        (if b then record row { last_block = block } ∷ rows else row ∷ later)
      ≡ some block
unfolding checkpoint_at
put_head true id block registry row rows later e ih = rw e refl
put_head false id block registry row rows later e ih = rw e ih

at-put :
    (id block : ℕ) (registry : Text) (rows : List Checkpoint)
    → checkpoint_at id registry (checkpoint_put id registry block rows) ≡ some block
unfolding checkpoint_at checkpoint_put
at-put id block registry [] = rw (text_eq_refl registry, (==_iff id id).1 refl) refl
at-put id block registry (row ∷ rows) =
    put_head (is_checkpoint_of id registry row) id block registry row rows
      (checkpoint_put id registry block rows) refl (at-put id block registry rows)

pub get_checkpoint-set_checkpoint :
    (id block : ℕ) (registry : Text) (rows : List Checkpoint)
    → get_checkpoint id registry (set_checkpoint id registry block rows)
      ≡ some (Nat.min block i64_max)
unfolding get_checkpoint set_checkpoint
get_checkpoint-set_checkpoint id block registry rows =
    at-put (Nat.min id i64_max) (Nat.min block i64_max) (to_lowercase registry) rows

-- The keys are in lower case.
abbrev pub LowerKeys {ℓ} : {V : Type ℓ} → Map V → Type 0
LowerKeys [] = Unit
LowerKeys ((k, v) ∷ rest) = (to_lowercase k ≡ k) × LowerKeys rest

abbrev pub is_there : Option NodeState → Bool
is_there none = false
is_there (some node) = true

kept_head :
    (b : Bool) (v : NodeState) (o : Option NodeState)
    → (b || is_there o) ≡ is_there (if b then some v else o)
kept_head true v o = refl
kept_head false v o = refl

pub is_kept-keys :
    (a : Text) (m : Map NodeState)
    → to_lowercase a ≡ a
    → LowerKeys m
    → is_kept (keys m) a ≡ is_there (get a m)
unfolding is_kept keys get
is_kept-keys a [] low lows = refl
is_kept-keys a ((k, v) ∷ rest) low lows =
    rw (lows.0, low, is_kept-keys a rest low lows.1, text_eq_sym k a)
      (kept_head (text_eq a k) v (get a rest))

pub LowerKeys-remove : (a : Text) (m : Map NodeState) → LowerKeys m → LowerKeys (remove a m)
unfolding remove
LowerKeys-remove a [] lows = tt
LowerKeys-remove a ((k, v) ∷ rest) lows = elim (Bool-cases (text_eq a k)) [
  | inl e ↦ rw (e, remove) (LowerKeys-remove a rest lows.1)
  | inr e ↦ rw (e, remove) (lows.0, LowerKeys-remove a rest lows.1)
]

module _ (sha256 : Text → ℕ) (parse_ip : Text → Option IpAddr) (show_socket : IpAddr → ℕ → Text)
    (allow_private : Bool) (registry : Text) where
  abbrev loaded : Option NodeRow → Option NodeState
  loaded = loaded_row sha256 parse_ip show_socket allow_private registry

  pruned_row :
      (keep : List Text) (a : Text) (row : NodeRow) (b : Bool)
      → is_registered_row row ≡ b
      → is_kept keep a ≡ false
      → loaded (some (pruned keep a row)) ≡ none
  pruned_row keep a row true e h = rw (e, h) refl
  pruned_row keep a row false e h = rw (e, e) refl

  pub dropped :
      (keep : List Text) (a : Text) (r : Option NodeRow)
      → is_kept keep a ≡ false
      → loaded (option_map (pruned keep a) r) ≡ none
  dropped keep a none h = refl
  dropped keep a (some row) h = pruned_row keep a row (is_registered_row row) refl h

  pub kept_row :
      (keep : List Text) (a : Text) (row : NodeRow)
      → is_kept keep a ≡ true
      → pruned keep a row ≡ row
  kept_row keep a row h = elim (Bool-cases (is_registered_row row)) [
    | inl e ↦ rw (h, e) refl
    | inr e ↦ rw (h, e) refl
  ]
