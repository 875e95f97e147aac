-- ===== src/Subscriber/Planned.antt =====
-- A round of subscriptions ends with those that the nodes in memory call for.
use nox_indexer.Prelude.{
  ℕ, ltb, ◌≡◌, refl, sym, ap, ◌∙◌, inl, inr, Bool, true, false, ◌&&◌, ◌||◌, not, Option, none, some,
  List, [], ◌∷◌, if◌then◌else◌, Bool-cases, Option-cases, ◌++◌,
}
use nox_indexer.Prelude.Text.{Text, text, text_eq, text_eq_iff, show_u64}
use nox_indexer.Prelude.Maps.{
  Map, get, keys, has_key, is_some, get-put, get-remove, has_key-keys, text_eq_sym,
}
use nox_indexer.Nodes.Targets.{Url, IpAddr, url_allowed_with}
use nox_indexer.Nodes.State.{NodeState}
use nox_indexer.Subscriber.Plan.{
  Subscriptions, same_url, differing, plan_subscription_changes, stop_one, stop_all, start_one,
  start_all, round, if_allowed, resolve_base_url, current_nodes, manage,
}
use nox_indexer.Subscriber.Differing.{has_key-differing}

-- What stopping leaves.
stopped_cases :
    (h e : Bool) (o o' : Option Text)
    → o' ≡ (if e then none else o)
    → (if h then none else o') ≡ (if e || h then none else o)
stopped_cases true true o o' g = refl
stopped_cases true false o o' g = refl
stopped_cases false true o o' g = g
stopped_cases false false o o' g = g

nothing_there :
    (a k : Text) (m : Map Text) → get a m ≡ none → get k m ≡ (if text_eq a k then none else get k m)
nothing_there a k m g = elim (Bool-cases (text_eq a k)) [
  | inl same ↦ rw (same, ← (text_eq_iff a k).0 same) g
  | inr apart ↦ rw apart refl
]

stop_one-get :
    (a k : Text) (subs : Subscriptions) (o : Option Text)
    → get a subs.active ≡ o
    → get k (stop_one a subs o).active ≡ (if text_eq a k then none else get k subs.active)
stop_one-get a k subs none g = nothing_there a k subs.active g
stop_one-get a k subs (some url) g = rw (text_eq_sym a k) (get-remove k a subs.active)

stop_all-get :
    (xs : List Text) (subs : Subscriptions) (k : Text)
    → get k (stop_all xs subs).active ≡ (if has_key xs k then none else get k subs.active)
unfolding stop_all has_key
stop_all-get [] subs k = refl
stop_all-get (a ∷ rest) subs k =
    stop_all-get rest (stop_one a subs (get a subs.active)) k
    ∙ stopped_cases (has_key rest k) (text_eq a k) (get k subs.active)
        (get k (stop_one a subs (get a subs.active)).active)
        (stop_one-get a k subs (get a subs.active) refl)

abbrev or_else : Option Text → Option Text → Option Text
or_else none o = o
or_else (some u) o = some u

started_cases :
    (h e : Bool) (c o o' : Option Text)
    → o' ≡ (if e then or_else c o else o)
    → (if h then or_else c o' else o') ≡ (if e || h then or_else c o else o)
started_cases true true none o o' g = g
started_cases true true (some u) o o' g = refl
started_cases true false c o o' g = ap (or_else c) g
started_cases false true c o o' g = g
started_cases false false c o o' g = g

start_one-get :
    (a k : Text) (current active : Map Text) (o : Option Text)
    → get a current ≡ o
    → get k (start_one a o active)
      ≡ (if text_eq a k then or_else (get k current) (get k active) else get k active)
start_one-get a k current active none g = elim (Bool-cases (text_eq a k)) [
  | inl same ↦ rw (same, ← (text_eq_iff a k).0 same, g) refl
  | inr apart ↦ rw apart refl
]
start_one-get a k current active (some url) g = elim (Bool-cases (text_eq a k)) [
  | inl same ↦
      rw (get-put k a url active, text_eq_sym k a, same, ← (text_eq_iff a k).0 same, g) refl
  | inr apart ↦ rw (get-put k a url active, text_eq_sym k a, apart) refl
]

start_all-get :
    (current : Map Text) (xs : List Text) (active : Map Text) (k : Text)
    → get k (start_all current xs active)
      ≡ (if has_key xs k then or_else (get k current) (get k active) else get k active)
unfolding start_all has_key
start_all-get current [] active k = refl
start_all-get current (a ∷ rest) active k =
    start_all-get current rest (start_one a (get a current) active) k
    ∙ started_cases (has_key rest k) (text_eq a k) (get k current) (get k active)
        (get k (start_one a (get a current) active))
        (start_one-get a k current active (get a current) refl)

same_url→eq : (o p : Option Text) → same_url o p ≡ true → o ≡ p
same_url→eq none none e = refl
same_url→eq none (some v) e = absurd cc
same_url→eq (some u) none e = absurd cc
same_url→eq (some u) (some v) e = ap some ((text_eq_iff u v).0 e)

round_cases :
    (s : Bool) (o c : Option Text)
    → same_url o c ≡ s
    → (if is_some c && not s
        then or_else c (if is_some o && not s then none else o)
        else if is_some o && not s
        then none
        else o)
      ≡ c
round_cases true none none e = refl
round_cases true none (some v) e = absurd cc
round_cases true (some u) none e = absurd cc
round_cases true (some u) (some v) e = same_url→eq (some u) (some v) e
round_cases false none none e = absurd cc
round_cases false none (some v) e = refl
round_cases false (some u) none e = refl
round_cases false (some u) (some v) e = refl

round-get :
    (current : Map Text) (subs : Subscriptions) (k : Text)
    → get k (round current subs).active ≡ get k current
unfolding round plan_subscription_changes
round-get current subs k =
    let stop = differing subs.active current (keys subs.active) in
    let start = differing subs.active current (keys current) in
    start_all-get current start (stop_all stop subs).active k
    ∙ rw
        (
          stop_all-get stop subs k,
          has_key-differing subs.active current (keys subs.active) k,
          has_key-differing subs.active current (keys current) k,
          has_key-keys subs.active k,
          has_key-keys current k,
        )
        (round_cases (same_url (get k subs.active) (get k current)) (get k subs.active)
          (get k current) refl)

module _ (parse_url : Text → Option Url) (parse_ip : Text → Option IpAddr)
    (allow_private : Bool) where
  allowed_some :
      (u url : Text)
      → if_allowed parse_url parse_ip allow_private u ≡ some url
      → url_allowed_with parse_url parse_ip url allow_private ≡ true
  allowed_some u url e = elim (Bool-cases (url_allowed_with parse_url parse_ip u allow_private)) [
    | inl fine ↦ let e' = rw fine at e in let same : u ≡ url = cc in rw (← same) fine
    | inr refused ↦ let e' = rw refused at e in absurd cc
  ]

  resolved-allowed :
      (admin_url : Text) (admin_port : ℕ) (url : Text)
      → resolve_base_url parse_url parse_ip allow_private admin_url admin_port ≡ some url
      → url_allowed_with parse_url parse_ip url allow_private ≡ true
  unfolding resolve_base_url
  resolved-allowed (c ∷ s) admin_port url e = allowed_some (c ∷ s) url e
  resolved-allowed [] admin_port url e = elim (Bool-cases (ltb 0 admin_port)) [
    | inl open_port ↦
        allowed_some (text "http://127.0.0.1:" ++ show_u64 admin_port) url
          (rw (open_port, resolve_base_url) at e)
    | inr closed ↦ let e' = rw (closed, resolve_base_url) at e in absurd cc
  ]

  current-allowed :
      (nodes : Map NodeState) (k url : Text)
      → get k (current_nodes parse_url parse_ip allow_private nodes) ≡ some url
      → url_allowed_with parse_url parse_ip url allow_private ≡ true
  unfolding current_nodes get
  current-allowed [] k url e = absurd cc
  current-allowed ((a, node) ∷ rest) k url e =
      elim (Option-cases
        (resolve_base_url parse_url parse_ip allow_private node.admin_url node.admin_port)) [
          | inl nothing ↦ current-allowed rest k url (rw (nothing, current_nodes) at e)
          | inr (u, there) ↦ elim (Bool-cases (text_eq k a)) [
            | inl same ↦
                let e' = rw (there, current_nodes, same) at e in
                let found : u ≡ url = cc in
                resolved-allowed node.admin_url node.admin_port url (rw found at there)
            | inr apart ↦ current-allowed rest k url (rw (there, current_nodes, apart) at e)
          ]
        ]

  -- If there is a URL, it may be polled.
  abbrev pub IsAllowed : Option Text → Type 0
  IsAllowed none = Unit
  IsAllowed (some url) = url_allowed_with parse_url parse_ip url allow_private ≡ true

  current-IsAllowed :
      (nodes : Map NodeState) (k : Text) (o : Option Text)
      → get k (current_nodes parse_url parse_ip allow_private nodes) ≡ o
      → IsAllowed o
  current-IsAllowed nodes k none e = tt
  current-IsAllowed nodes k (some url) e = current-allowed nodes k url e

  -- After a round of `manage_subscriptions` the subscriptions are those that the nodes in memory call
  -- for, each at its current URL, which is one that may be polled.
  pub manage-get :
      (nodes : Map NodeState) (subs : Subscriptions) (k : Text)
      → (get k (manage parse_url parse_ip allow_private nodes subs).active
          ≡ get k (current_nodes parse_url parse_ip allow_private nodes))
        × IsAllowed (get k (manage parse_url parse_ip allow_private nodes subs).active)
  unfolding manage
  manage-get nodes subs k =
      let same = round-get (current_nodes parse_url parse_ip allow_private nodes) subs k in
      (
        same,
        current-IsAllowed nodes k
            (get k (round (current_nodes parse_url parse_ip allow_private nodes) subs).active)
            (sym same),
      )
