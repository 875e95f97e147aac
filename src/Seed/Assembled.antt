-- ===== src/Seed/Assembled.antt =====
-- What a client reads from an assembled seed topology.
use Prim.Native.Nat
use nox_indexer.Prelude.{
  ℕ, zero, suc, ◌≡◌, refl, sym, ap, subst, ◌∙◌, Bool, true, false, ◌&&◌, ◌||◌, not, Option, none,
  some, List, [], ◌∷◌, map, if◌then◌else◌, get_elem?, arith,
}
use nox_indexer.Prelude.Text.{Text}
use nox_indexer.Prelude.Results.{ok}
use nox_indexer.Seed.Cache.{PinnedTopologyNode}
use nox_indexer.Nodes.Status.{NodeStatus, online, offline, deregistered}
use nox_indexer.Seed.Snapshot.{
  NodeReport, SeedLiveness, SeedTopologySnapshot, is_exit_role, is_some, is_online_status,
  is_online, capabilities_of, publish_capabilities, liveness_of, node_of, snapshot_of,
  assemble_seed_topology,
}

at-map {ℓ κ} :
    {A : Type ℓ} {B : Type κ} (f : A → B) (xs : List A) (i : ℕ) (x : A)
    → get_elem? xs i ≡ some x
    → get_elem? (map f xs) i ≡ some (f x)
at-map f [] i x h = cc
at-map f (y ∷ xs) zero x h = cc
at-map f (y ∷ xs) (suc i) x h = at-map f xs i x h

at-map_inv {ℓ κ} :
    {A : Type ℓ} {B : Type κ} (f : A → B) (xs : List A) (i : ℕ) (y : B)
    → get_elem? (map f xs) i ≡ some y
    → (x : A) × (get_elem? xs i ≡ some x) × (f x ≡ y)
at-map_inv f [] i y h = cc
at-map_inv f (x ∷ xs) zero y h = (x, refl, cc)
at-map_inv f (x ∷ xs) (suc i) y h = at-map_inv f xs i y h

-- The test of one member in `publish_capabilities`.
unpublished :
    (o r c p : Bool)
    → ((not (o && r) || c) && p) ≡ true
    → (p ≡ true) × (o ≡ true → r ≡ true → c ≡ true)
unpublished true true c p h = ground arith
unpublished true false c p h = (h, λ a b. cc)
unpublished false r c p h = (h, λ a b. cc)

if_some : (b : Bool) (o : Option (List Text)) → is_some (if b then o else none) ≡ true → b ≡ true
if_some true o h = refl
if_some false o h = cc

if_online : (b : Bool) → (if b then online else offline) ≡ online → b ≡ true
if_online true h = refl
if_online false h = cc

-- The status that a member is shown with.
abbrev pub IsShown : Bool → Option NodeStatus → NodeStatus → Type 0
IsShown true status shown_as = shown_as ≡ offline
IsShown false none shown_as = shown_as ≡ offline
IsShown false (some online) shown_as = shown_as ≡ online
IsShown false (some offline) shown_as = shown_as ≡ offline
IsShown false (some deregistered) shown_as = shown_as ≡ offline

shown :
    (frozen : Bool) (status : Option NodeStatus)
    → IsShown frozen status (if not frozen && is_online_status status then online else offline)
shown true status = refl
shown false none = refl
shown false (some online) = refl
shown false (some offline) = refl
shown false (some deregistered) = refl

module _ (statuses : Text → Option NodeStatus) (observed_at : Text → Option ℕ)
    (reports : Text → Option NodeReport) where
  assembled :
      (members : List PinnedTopologyNode) (fingerprint : Text) (max block now : ℕ)
      (s : SeedTopologySnapshot)
      → assemble_seed_topology statuses observed_at reports members fingerprint max block now ≡ ok s
      → snapshot_of statuses observed_at reports members fingerprint max block now ≡ s
  unfolding assemble_seed_topology
  assembled members fingerprint max block now s h = ground arith

  unpublished_at :
      (x : PinnedTopologyNode) (xs : List PinnedTopologyNode)
      → publish_capabilities statuses observed_at reports (x ∷ xs) ≡ true
      → (publish_capabilities statuses observed_at reports xs ≡ true)
        × (is_online statuses observed_at reports x ≡ true
            → is_exit_role x.role ≡ true
            → is_some (capabilities_of statuses observed_at reports x) ≡ true)
  unfolding publish_capabilities
  unpublished_at x xs p =
      unpublished (is_online statuses observed_at reports x) (is_exit_role x.role)
        (is_some (capabilities_of statuses observed_at reports x))
        (publish_capabilities statuses observed_at reports xs) p

  -- The online exits of a list whose capabilities are published all report theirs.
  published_at :
      (members : List PinnedTopologyNode) (i : ℕ) (m : PinnedTopologyNode)
      → publish_capabilities statuses observed_at reports members ≡ true
      → get_elem? members i ≡ some m
      → is_online statuses observed_at reports m ≡ true
      → is_exit_role m.role ≡ true
      → is_some (capabilities_of statuses observed_at reports m) ≡ true
  published_at [] i m p h o r = cc
  published_at (x ∷ xs) zero m p h o r =
      let same : m ≡ x = cc in
      let o' = subst (λ y. is_online statuses observed_at reports y ≡ true) same o in
      let r' : is_exit_role x.role ≡ true =
        subst (λ (y : PinnedTopologyNode). is_exit_role y.role ≡ true) same r in
      subst (λ y. is_some (capabilities_of statuses observed_at reports y) ≡ true) (sym same)
        ((unpublished_at x xs p).1 o' r')
  published_at (x ∷ xs) (suc i) m p h o r = published_at xs i m (unpublished_at x xs p).0 h o r

  module _ (members : List PinnedTopologyNode) (fingerprint : Text) (max block now : ℕ)
      (s : SeedTopologySnapshot)
      (h : assemble_seed_topology statuses observed_at reports members fingerprint max block now
        ≡ ok s) where
    liveness_eq :
        map
          (liveness_of statuses observed_at reports
            (publish_capabilities statuses observed_at reports members))
          members
        ≡ s.liveness
    unfolding snapshot_of
    liveness_eq =
        ap (λ (t : SeedTopologySnapshot). t.liveness)
          (assembled members fingerprint max block now s h)

    nodes_eq : map (node_of statuses observed_at reports) members ≡ s.nodes
    unfolding snapshot_of
    nodes_eq =
        ap (λ (t : SeedTopologySnapshot). t.nodes) (assembled members fingerprint max block now s h)

    entry_at :
        (i : ℕ) (m : PinnedTopologyNode) (l : SeedLiveness)
        → get_elem? members i ≡ some m
        → get_elem? s.liveness i ≡ some l
        → liveness_of statuses observed_at reports
            (publish_capabilities statuses observed_at reports members)
            m
          ≡ l
    entry_at i m l em el =
        let at =
          at-map
            (liveness_of statuses observed_at reports
              (publish_capabilities statuses observed_at reports members))
            members i m em in
        let e = sym at ∙ ap (λ xs. get_elem? xs i) liveness_eq ∙ el in cc

    -- The nodes of an assembled topology are the members, in their order.
    nodes_at :
        (i : ℕ) (m : PinnedTopologyNode)
        → get_elem? members i ≡ some m
        → get_elem? s.nodes i ≡ some (node_of statuses observed_at reports m)
    nodes_at i m em =
        sym (ap (λ xs. get_elem? xs i) nodes_eq)
        ∙ at-map (node_of statuses observed_at reports) members i m em

    -- In an assembled topology every member is listed at its place under its address. It is shown online if it is not frozen
    -- and the indexer has it online, and offline if it is frozen, or not known, or offline or
    -- deregistered.
    pub member_listed :
        (i : ℕ) (m : PinnedTopologyNode)
        → get_elem? members i ≡ some m
        → (l : SeedLiveness) × (get_elem? s.liveness i ≡ some l)
          × (l.address ≡ m.address)
          × IsShown m.frozen (statuses m.address) l.status
    unfolding liveness_of is_online
    member_listed i m em =
        let publish = publish_capabilities statuses observed_at reports members in
        (
          liveness_of statuses observed_at reports publish m,
          sym (ap (λ xs. get_elem? xs i) liveness_eq)
              ∙ at-map (liveness_of statuses observed_at reports publish) members i m em,
          refl,
          shown m.frozen (statuses m.address),
        )

    -- If any member's capabilities are published, then every online exit's are.
    pub online_exit_capabilities :
        (i j : ℕ) (m : PinnedTopologyNode) (l k : SeedLiveness)
        → get_elem? members i ≡ some m
        → get_elem? s.liveness i ≡ some l
        → get_elem? s.liveness j ≡ some k
        → is_some k.capabilities ≡ true
        → l.status ≡ online
        → is_exit_role m.role ≡ true
        → is_some l.capabilities ≡ true
    unfolding liveness_of
    online_exit_capabilities i j m l k em el ek ck o r =
        let publish = publish_capabilities statuses observed_at reports members in
        let (n, en, e') =
          at-map_inv (liveness_of statuses observed_at reports publish) members j k
            (ap (λ xs. get_elem? xs j) liveness_eq ∙ ek) in
        let e = entry_at i m l em el in
        let p : publish ≡ true =
          if_some publish (capabilities_of statuses observed_at reports n)
            (ap (λ (x : SeedLiveness). is_some x.capabilities) e' ∙ ck) in
        let on =
          if_online (is_online statuses observed_at reports m)
            (ap (λ (x : SeedLiveness). x.status) e ∙ o) in
        let has = published_at members i m p em on r in
        sym (ap (λ (x : SeedLiveness). is_some x.capabilities) e) ∙ rw p has
