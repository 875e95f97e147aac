-- ===== src/Rpc/Skipping.antt =====
-- The rounds of a request whose endpoints give retryable answers, and what is said of them.
use mathlib.Core.List.{append-nil}
use nox_indexer.Prelude.{
  ◌∙◌, ap, ℕ, zero, suc, ◌+◌, ◌%◌, ◌≤◌, ◌<◌, ◌≡◌, refl, Bool, true, false, Option, some, List, [],
  ◌∷◌, ◌++◌, length, arith,
}
use nox_indexer.Prelude.Text.{Text, text}
use nox_indexer.Rpc.Endpoints.{
  HttpClientError, FailoverHttp, Reply, value, failed, timed_out, is_deterministic, label, redact,
  join,
}
use nox_indexer.Rpc.Failover.{served, refused, after_success, try_from}

append_one : (xs : List Text) (x : Text) (ys : List Text) → (xs ++ x ∷ []) ++ ys ≡ xs ++ x ∷ ys
append_one [] x ys = refl
append_one (y ∷ xs) x ys = ap (λ zs. y ∷ zs) (append_one xs x ys)

module _ {ℓ} {V : Type ℓ} where
  -- An answer after which the next endpoint is asked.
  abbrev pub IsRetryable : Reply V → Type 0
  IsRetryable (value v) = ⊥
  IsRetryable (failed error shown) = is_deterministic error ≡ false
  IsRetryable timed_out = Unit

  module _ (replies : ℕ → Reply V) (method : Text) (is_get_logs : Bool) (start : ℕ)
      (http : FailoverHttp) where
    -- The endpoint that is asked at an offset.
    abbrev pub turn : ℕ → ℕ
    turn offset = (start + offset) % length http.endpoints

    -- Every endpoint from offset `a` up to offset `b` gave a retryable answer.
    abbrev Skipped : ℕ → ℕ → Type 0
    Skipped a b = (j : ℕ) → a ≤ j → j < b → IsRetryable (replies (turn j))

    -- What is said of the answer of the endpoint at an offset; a value fails nothing.
    abbrev failure_at : ℕ → Reply V → Text
    failure_at offset (value v) = []
    failure_at offset (failed error shown) =
        text "[" ++ label http (turn offset) ++ text ": " ++ redact http shown ++ text "]"
    failure_at offset timed_out =
        text "[" ++ label http (turn offset) ++ text ": timed out after 30s]"

    abbrev error_or : Reply V → Option HttpClientError → Option HttpClientError
    error_or (value v) last = last
    error_or (failed error shown) last = some error
    error_or timed_out last = last

    -- The failures of a number of turns from an offset on, one space between them.
    abbrev pub failures_text : ℕ → ℕ → Text
    failures_text zero offset = []
    failures_text (suc zero) offset = failure_at offset (replies (turn offset))
    failures_text (suc (suc count)) offset =
        failure_at offset (replies (turn offset))
        ++ text " "
        ++ failures_text (suc count) (offset + 1)

    -- The last error among these turns, or the one before them.
    abbrev pub last_error : ℕ → ℕ → Option HttpClientError → Option HttpClientError
    last_error zero offset last = last
    last_error (suc count) offset last =
        last_error count (offset + 1) (error_or (replies (turn offset)) last)

    abbrev failures_of : ℕ → ℕ → List Text
    failures_of zero offset = []
    failures_of (suc count) offset =
        failure_at offset (replies (turn offset)) ∷ failures_of count (offset + 1)

    pub join-failures_of :
        (count offset : ℕ) → join (failures_of count offset) ≡ failures_text count offset
    unfolding join
    join-failures_of zero offset = refl
    join-failures_of (suc zero) offset = refl
    join-failures_of (suc (suc count)) offset =
        ap (λ rest. failure_at offset (replies (turn offset)) ++ text " " ++ rest)
          (join-failures_of (suc count) (offset + 1))

    -- One round of the loop whose endpoint gave a retryable answer.
    skip_round :
        (rounds offset : ℕ) (failures : List Text) (last : Option HttpClientError) (r : Reply V)
        → replies (turn offset) ≡ r
        → IsRetryable r
        → try_from replies method is_get_logs start http (suc rounds) offset failures last
          ≡ try_from replies method is_get_logs start http rounds
              (offset + 1)
              (failures ++ failure_at offset r ∷ [])
              (error_or r last)
    unfolding try_from
    skip_round rounds offset failures last (value v) e h = absurd h
    skip_round rounds offset failures last (failed error shown) e h = rw (e, try_from, h) refl
    skip_round rounds offset failures last timed_out e h = rw (e, try_from) refl

    -- As many rounds as there are retryable answers in a row.
    pub skip_rounds :
        (gap rounds total offset end : ℕ) (failures : List Text) (last : Option HttpClientError)
        → total ≡ gap + rounds
        → end ≡ offset + gap
        → Skipped offset end
        → try_from replies method is_get_logs start http total offset failures last
          ≡ try_from replies method is_get_logs start http rounds end
              (failures ++ failures_of gap offset)
              (last_error gap offset last)
    skip_rounds zero rounds total offset end failures last et ee skipped =
        let et' : total ≡ rounds = omega arith in
        let ee' : end ≡ offset = omega arith in rw (et', ee', append-nil failures) refl
    skip_rounds (suc gap) rounds zero offset end failures last et ee skipped = absurd (omega arith)
    skip_rounds (suc gap) rounds (suc total) offset end failures last et ee skipped =
        let r = replies (turn offset) in
        let failure = failure_at offset r in
        skip_round total offset failures last r refl (skipped offset (omega arith) (omega arith))
        ∙ skip_rounds gap rounds total (offset + 1) end (failures ++ failure ∷ []) (error_or r last)
            (omega arith) (omega arith) (λ j low high. skipped j (omega arith) high)
        ∙ ap
            (λ all.
              try_from replies method is_get_logs start http rounds end all
                (last_error (suc gap) offset last))
            (append_one failures failure (failures_of gap (offset + 1)))

    pub finish_served :
        (rounds offset : ℕ) (failures : List Text) (last : Option HttpClientError) {v : V}
        → replies (turn offset) ≡ value v
        → try_from replies method is_get_logs start http (suc rounds) offset failures last
          ≡ (served v, after_success is_get_logs start (turn offset) http)
    unfolding try_from
    finish_served rounds offset failures last e = rw (e, try_from)

    pub finish_refused :
        (rounds offset : ℕ) (failures : List Text) (last : Option HttpClientError)
        {error : HttpClientError} {shown : Text}
        → replies (turn offset) ≡ failed error shown
        → is_deterministic error ≡ true
        → try_from replies method is_get_logs start http (suc rounds) offset failures last ≡ (
          refused (label http (turn offset) ++ text ": " ++ redact http shown) (some error),
          http,
        )
    unfolding try_from
    finish_refused rounds offset failures last e d = rw (e, try_from, d)
