-- ===== src/Rpc/Endpoints.antt =====
-- The endpoints of src/chain/rpc.rs, the errors of one endpoint, and the texts built from them. The
-- HTTP transport is not under the repository: what it answers is an argument of the definitions, and
-- an error carries the text that it displays.
use nox_indexer.Prelude.{
  ℕ, ◌==◌, Bool, false, ◌||◌, none, some, List, [], ◌∷◌, ◌++◌, if◌then◌else◌, get_elem?,
}
use nox_indexer.Prelude.Int.{ℤ, pos, negsuc}
use nox_indexer.Prelude.Text.{Text, text, is_empty, to_lowercase, contains, replace}

pub record Endpoint : Type 0 where
  pub label : Text
  pub secrets : List Text

-- `HttpClientError`: an error object of the node, or a failure of the transport.
pub data HttpClientError : Type 0 where
  json_rpc_error : ℤ → Text → HttpClientError
  reqwest_error : HttpClientError
  serde_json_error : HttpClientError

-- `FailoverHttp`
pub record FailoverHttp : Type 0 where
  pub endpoints : List Endpoint
  pub preferred : ℕ
  pub logs_served_by : ℕ

-- What one endpoint answers within the time limit; an error comes with its text.
pub data Reply {ℓ} (V : Type ℓ) : Type ℓ where
  value : V → Reply V
  failed : HttpClientError → Text → Reply V
  timed_out : Reply V

abbrev is_code_3 : ℤ → Bool
is_code_3 (pos n) = n == 3
is_code_3 (negsuc n) = false

-- Errors that every endpoint would reproduce.
unfoldable pub is_deterministic : HttpClientError → Bool
is_deterministic (json_rpc_error code' message) =
    let lower = to_lowercase message in
    is_code_3 code' || contains (text "execution reverted") lower || contains (text "revert") lower
is_deterministic reqwest_error = false
is_deterministic serde_json_error = false

-- `FailoverHttp::label`
unfoldable pub label : FailoverHttp → ℕ → Text
label http index = elim (get_elem? http.endpoints index) [
  | none ↦ text "?"
  | some endpoint ↦ endpoint.label
]

unfoldable pub redact_secrets : Text → List Text → Text → Text
redact_secrets label' [] out = out
redact_secrets label' (secret ∷ secrets) out =
    redact_secrets label' secrets (if is_empty secret then out else replace secret label' out)

unfoldable pub redact_all : List Endpoint → Text → Text
unfolding redact_secrets
redact_all [] out = out
redact_all (endpoint ∷ endpoints) out =
    redact_all endpoints (redact_secrets endpoint.label endpoint.secrets out)

-- `FailoverHttp::redact`: each secret of each endpoint is replaced by the endpoint's label.
unfoldable pub redact : FailoverHttp → Text → Text
unfolding redact_all
redact http message = redact_all http.endpoints message

-- `REQUEST_TIMEOUT`, in seconds
abbrev pub request_timeout : ℕ
request_timeout = 30

abbrev pub timeout_text : Text → Text
timeout_text label' = text "[" ++ label' ++ text ": timed out after 30s]"

-- `failures.join(" ")`
unfoldable pub join : List Text → Text
join [] = []
join (t ∷ []) = t
join (t ∷ u ∷ ts) = t ++ text " " ++ join (u ∷ ts)
