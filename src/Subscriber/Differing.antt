-- ===== src/Subscriber/Differing.antt =====
-- Which addresses a plan of subscriptions lists.
use nox_indexer.Prelude.{
  ◌≡◌, refl, ap, ◌∙◌, inl, inr, Bool, true, false, ◌&&◌, ◌||◌, not, List, [], ◌∷◌, Bool-cases,
}
use nox_indexer.Prelude.Text.{Text, text_eq, text_eq_iff}
use nox_indexer.Prelude.Maps.{Map, get, has_key}
use nox_indexer.Seed.Cache.{text_ltb, insert_sorted}
use nox_indexer.Subscriber.Plan.{same_url, differing}

swapped : (a b c d : Bool) → a ≡ (c || d) → (b || a) ≡ (c || (b || d))
swapped a true true d e = refl
swapped a true false d e = refl
swapped a false true d e = e
swapped a false false d e = e

has_key-insert_sorted :
    (a : Text) (xs : List Text) (k : Text)
    → has_key (insert_sorted a xs) k ≡ (text_eq a k || has_key xs k)
unfolding has_key insert_sorted
has_key-insert_sorted a [] k = refl
has_key-insert_sorted a (b ∷ rest) k = elim (Bool-cases (text_ltb b a)) [
  | inl after ↦
      rw (after, insert_sorted)
        (swapped (has_key (insert_sorted a rest) k) (text_eq b k) (text_eq a k) (has_key rest k)
          (has_key-insert_sorted a rest k))
  | inr here ↦ rw (here, insert_sorted) refl
]

undiffering_head : (e h s : Bool) → (e ≡ true → s ≡ true) → (h && not s) ≡ ((e || h) && not s)
undiffering_head true true s g = refl
undiffering_head true false s g = rw (g refl) refl
undiffering_head false h s g = refl

differing_head : (e h s : Bool) → (e ≡ true → s ≡ false) → (e || (h && not s)) ≡ ((e || h) && not s)
differing_head true h s g = rw (g refl) refl
differing_head false h s g = refl

pub has_key-differing :
    (active current : Map Text) (xs : List Text) (k : Text)
    → has_key (differing active current xs) k
      ≡ (has_key xs k && not (same_url (get k active) (get k current)))
unfolding has_key differing
has_key-differing active current [] k = refl
has_key-differing active current (a ∷ rest) k =
    elim (Bool-cases (same_url (get a active) (get a current))) [
      | inl same ↦
          rw (same, differing)
            (has_key-differing active current rest k
              ∙ undiffering_head (text_eq a k) (has_key rest k)
                  (same_url (get k active) (get k current))
                  (λ e. rw (← (text_eq_iff a k).0 e) same))
      | inr apart ↦
          rw (apart, differing)
            (has_key-insert_sorted a (differing active current rest) k
              ∙ ap (λ h. text_eq a k || h) (has_key-differing active current rest k)
              ∙ differing_head (text_eq a k) (has_key rest k)
                  (same_url (get k active) (get k current))
                  (λ e. rw (← (text_eq_iff a k).0 e) apart))
    ]
