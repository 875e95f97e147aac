-- ===== src/Subscriber/Flushed.antt =====
-- What a flush of the lifetime offsets saves.
use nox_indexer.Prelude.{
  ◌≡◌, refl, ◌∙◌, ◌⊎◌, inl, inr, Bool, true, false, ◌||◌, Option, none, some, List, [], ◌∷◌,
  if◌then◌else◌, Bool-cases,
}
use nox_indexer.Prelude.Text.{Text, text_eq, text_eq_iff}
use nox_indexer.Prelude.Maps.{
  Map, get, keys, has_key, get-put, has_key-keys, text_eq_sym, text_eq_refl,
}
use nox_indexer.Offsets.Counters.{is_zero}
use nox_indexer.Offsets.Observe.{NodeOffset, lifetime}
use nox_indexer.Subscriber.Scrape.{
  Readings, stored_offset, save_snapshot, is_pending, flush_one, flush_all, flush_dirty_offsets,
}

saved_cases :
    (h e : Bool) (v o o' : Option NodeOffset)
    → o' ≡ (if e then v else o)
    → (if h then v else o') ≡ (if e || h then v else o)
saved_cases true true v o o' g = refl
saved_cases true false v o o' g = refl
saved_cases false true v o o' g = g
saved_cases false false v o o' g = g

-- Another address' save leaves the row.
other_saved :
    (k a : Text) (found : Option NodeOffset) (refused : Option Text) (state : Readings)
    → text_eq k a ≡ false
    → get k (flush_one a found refused state).saved ≡ get k state.saved
unfolding save_snapshot
other_saved k a none refused state apart = refl
other_saved k a (some o) refused state apart = elim (Bool-cases (is_pending o)) [
  | inr idle ↦ rw idle refl
  | inl pending ↦ rw pending (saved_elsewhere o refused)
]
  where
    saved_elsewhere :
        (o' : NodeOffset) (r : Option Text)
        → get k (save_snapshot a o' r state).saved ≡ get k state.saved
    saved_elsewhere o' (some error) = refl
    saved_elsewhere o' none = get-put k a (stored_offset o') state.saved ∙ rw apart refl

module _ (snapshot : Map NodeOffset) (refuse : Text → Option Text) (k : Text) (o : NodeOffset)
    (found : get k snapshot ≡ some o) (pending : is_pending o ≡ true)
    (taken : refuse k ≡ none) where
  own_saved :
      (state : Readings)
      → get k (flush_one k (get k snapshot) (refuse k) state).saved ≡ some (stored_offset o)
  unfolding save_snapshot
  own_saved state =
      rw (found, pending, taken)
        (get-put k k (stored_offset o) state.saved ∙ rw (text_eq_refl k) refl)

  one_saved :
      (a : Text) (state : Readings)
      → get k (flush_one a (get a snapshot) (refuse a) state).saved
        ≡ (if text_eq a k then some (stored_offset o) else get k state.saved)
  one_saved a state = elim (Bool-cases (text_eq a k)) [
    | inl same ↦ rw (same, (text_eq_iff a k).0 same) (own_saved state)
    | inr apart ↦
        rw apart (other_saved k a (get a snapshot) (refuse a) state (text_eq_sym k a ∙ apart))
  ]

  all_saved :
      (xs : List Text) (state : Readings)
      → get k (flush_all snapshot refuse xs state).saved
        ≡ (if has_key xs k then some (stored_offset o) else get k state.saved)
  unfolding flush_all has_key
  all_saved [] state = refl
  all_saved (a ∷ rest) state =
      all_saved rest (flush_one a (get a snapshot) (refuse a) state)
      ∙ saved_cases (has_key rest k) (text_eq a k) (some (stored_offset o)) (get k state.saved)
          (get k (flush_one a (get a snapshot) (refuse a) state).saved) (one_saved a state)

has_something :
    (o : NodeOffset) → (o.dirty ≡ true) ⊎ (is_zero o.last_raw ≡ false) → is_pending o ≡ true
has_something o (inl mark) = rw mark refl
has_something o (inr reading) = elim (Bool-cases o.dirty) [
  | inl mark ↦ rw mark refl
  | inr none_there ↦ rw (none_there, reading) refl
]

-- After a flush, every node with a mark or a reading whose statement the database took has its
-- offset saved: what a restart loads has the same lifetime figures.
pub flush_dirty_offsets-get :
    (refuse : Text → Option Text) (state : Readings) (k : Text) (o : NodeOffset)
    → get k state.metric_offsets ≡ some o
    → (o.dirty ≡ true) ⊎ (is_zero o.last_raw ≡ false)
    → refuse k ≡ none
    → (get k (flush_dirty_offsets refuse state).saved ≡ some (stored_offset o))
      × (lifetime (stored_offset o) ≡ lifetime o)
unfolding flush_dirty_offsets lifetime
flush_dirty_offsets-get refuse state k o found something taken = (
  all_saved state.metric_offsets refuse k o found (has_something o something) taken
        (keys state.metric_offsets) state
      ∙ rw (has_key-keys state.metric_offsets k, found) refl,
  refl,
)
