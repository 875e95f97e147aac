-- ===== src/Seed/Freshness.antt =====
-- Which copy of the members a request is served.
use nox_indexer.Prelude.{
  ℕ, ◌-◌, ◌<◌, ◌≡◌, ◌≢◌, inl, inr, refl, subst, ◌∙◌, Bool, true, false, Option, none, some, List,
  if◌then◌else◌, ltb, ltb→lt, ==_iff, not, ◌==◌, sym, arith, Bool-cases,
}
use nox_indexer.Prelude.Text.{Text}
use nox_indexer.Prelude.Results.{Result, ok, err, Result-cases}
use nox_indexer.Seed.Cache.{
  PinnedTopologyNode, CachedSeed, AppState, seed_stale_max, SeedCacheUse, fresh, stale, rebuild,
  seed_cache_use, age_use, member_addresses, verify_at, stored_from, with_fallback, cached_at,
  verify_seed_members, store_verified, refresh_seed_cache, refresh_from, answer_by, is_fresh,
  fall_back, rebuilt, pinned_seed_members,
}

module _ (pinned_topology_members : List Text → ℕ → Result (List PinnedTopologyNode × Text)) where
  -- A copy of the current membership, read from the chain at its block and built at `later`.
  abbrev pub IsReadNow : AppState → ℕ → CachedSeed → Type 0
  IsReadNow state later seed =
      (pinned_topology_members (member_addresses state.nodes) seed.block
        ≡ ok (seed.members, seed.fingerprint))
      × (seed.topology_version ≡ state.topology_version)
      × (seed.built_at ≡ later)

  read_at :
      (state : AppState) (block : ℕ) (addresses : List Text) (later : ℕ) (seed : CachedSeed)
      → cached_at pinned_topology_members state block addresses later ≡ ok seed
      → (pinned_topology_members addresses seed.block ≡ ok (seed.members, seed.fingerprint))
        × (seed.topology_version ≡ state.topology_version)
        × (seed.built_at ≡ later)
  unfolding cached_at
  read_at state block addresses later seed h =
      elim (Result-cases (pinned_topology_members addresses block)) [
        | inl (r, e) ↦ ground arith
        | inr (x, e) ↦ ground arith
      ]

  verified_now :
      (state : AppState) (at : Option ℕ) (later : ℕ) (seed : CachedSeed)
      → verify_at pinned_topology_members state at later ≡ ok seed
      → IsReadNow state later seed
  unfolding verify_at
  verified_now state none later seed h = cc
  verified_now state (some b) later seed h =
      read_at state b (member_addresses state.nodes) later seed h

  -- What a request is served: a copy of the current membership read just now, or the cached one, of
  -- the current membership or, when the new read failed, of an earlier one, and then younger than
  -- five minutes.
  pub data IsServed (state : AppState) (now later : ℕ) (seed : CachedSeed) : Type 0 where
    read_now : IsReadNow state later seed → IsServed state now later seed
    from_cache :
        state.seed_cache ≡ some seed
        → seed.topology_version ≡ state.topology_version
        → now - seed.built_at < seed_stale_max
        → IsServed state now later seed
    after_failure :
        state.seed_cache ≡ some seed
        → (error : Text) → verify_seed_members pinned_topology_members state later ≡ err error
        → later - seed.built_at < seed_stale_max
        → IsServed state now later seed

  fall_back_served :
      (cached : Option CachedSeed) (error : Text) (later : ℕ) (seed : CachedSeed)
      → fall_back pinned_topology_members cached error later ≡ ok seed
      → (cached ≡ some seed) × (later - seed.built_at < seed_stale_max)
  unfolding fall_back
  fall_back_served none error later seed h = cc
  fall_back_served (some c) error later seed h = ground arith

  after_verify :
      (state : AppState) (now later : ℕ) (seed : CachedSeed) (r : Result CachedSeed)
      → verify_seed_members pinned_topology_members state later ≡ r
      → (with_fallback pinned_topology_members state.seed_cache later
          (stored_from pinned_topology_members state r)).0
        ≡ ok seed
      → IsServed state now later seed
  unfolding verify_seed_members
  after_verify state now later seed (ok s) e h = read_now (verified_now state _ later seed (e ∙ h))
  after_verify state now later seed (err x) e h =
      let f = fall_back_served state.seed_cache x later seed h in after_failure f.0 x e f.1

  young : (age : ℕ) → age_use age ≢ rebuild → age < seed_stale_max
  young age n = elim (Bool-cases (ltb age seed_stale_max)) [
    | inl e ↦ ltb→lt age seed_stale_max e
    | inr e ↦ absurd (n (ground arith))
  ]

  use_current :
      (same : Bool) (age : ℕ)
      → (if not same then rebuild else age_use age) ≢ rebuild
      → (same ≡ true) × (age < seed_stale_max)
  use_current true age n = (refl, young age n)
  use_current false age n = absurd (n refl)

  current_copy :
      (c : CachedSeed) (version now : ℕ) (use' : SeedCacheUse)
      → use' ≢ rebuild
      → seed_cache_use (some c) version now ≡ use'
      → (c.topology_version ≡ version) × (now - c.built_at < seed_stale_max)
  unfolding seed_cache_use
  current_copy c version now use' n h =
      let r = use_current (c.topology_version == version) (now - c.built_at) (λ e. n (sym h ∙ e)) in
      ((==_iff c.topology_version version).0 r.0, r.1)

  copy-IsServed :
      (c : CachedSeed) (use' : SeedCacheUse) (state : AppState) (now later : ℕ) (seed : CachedSeed)
      → use' ≢ rebuild
      → state.seed_cache ≡ some c
      → seed_cache_use (some c) state.topology_version now ≡ use'
      → ok c ≡ ok seed
      → IsServed state now later seed
  copy-IsServed c use' state now later seed n e u h =
      let current = current_copy c state.topology_version now use' n u in
      let same : c ≡ seed = cc in
      subst (λ s. IsServed state now later s) same (from_cache e current.0 current.1)

  is_fresh_eq : (use' : SeedCacheUse) → is_fresh use' ≡ true → use' ≡ fresh
  is_fresh_eq fresh h = refl
  is_fresh_eq stale h = cc
  is_fresh_eq rebuild h = cc

  rebuilt-IsServed :
      (cached : Option CachedSeed) (state : AppState) (now later : ℕ) (seed : CachedSeed)
      → state.seed_cache ≡ cached
      → (with_fallback pinned_topology_members state.seed_cache later
          (refresh_from pinned_topology_members cached state now later)).0
        ≡ ok seed
      → IsServed state now later seed
  unfolding refresh_from store_verified
  rebuilt-IsServed none state now later seed e h = after_verify state now later seed _ refl h
  rebuilt-IsServed (some c) state now later seed e h =
      elim (Bool-cases (is_fresh (seed_cache_use (some c) state.topology_version now))) [
        | inl f ↦
            copy-IsServed c fresh state now later seed (λ x. cc) e (is_fresh_eq _ f) (rw f at h)
        | inr f ↦ after_verify state now later seed _ refl (rw f at h)
      ]

  answered :
      (use' : SeedCacheUse) (cached : Option CachedSeed) (state : AppState) (now later : ℕ)
      (seed : CachedSeed)
      → state.seed_cache ≡ cached
      → seed_cache_use cached state.topology_version now ≡ use'
      → (answer_by pinned_topology_members use' cached state now later).0 ≡ ok seed
      → IsServed state now later seed
  unfolding rebuilt refresh_seed_cache
  answered fresh none state now later seed e u h = cc
  answered fresh (some c) state now later seed e u h =
      copy-IsServed c fresh state now later seed (λ x. cc) e u h
  answered stale none state now later seed e u h = cc
  answered stale (some c) state now later seed e u h =
      copy-IsServed c stale state now later seed (λ x. cc) e u h
  answered rebuild cached state now later seed e u h =
      rebuilt-IsServed state.seed_cache state now later seed refl h

  -- A request that is answered is served one of three: a copy of the current membership, read and
  -- built just now; the cached copy, if it is of the current membership and younger than five
  -- minutes; or, when the new read failed, the cached copy of any membership, if it is still
  -- younger than five minutes.
  pub pinned_seed_members-IsServed :
      (state : AppState) (now later : ℕ) (seed : CachedSeed)
      → (pinned_seed_members pinned_topology_members state now later).0 ≡ ok seed
      → IsServed state now later seed
  unfolding pinned_seed_members
  pinned_seed_members-IsServed state now later seed h =
      answered _ state.seed_cache state now later seed refl refl h
