-- ===== src/Preflight/Kept.antt =====
-- What is kept and what is checked on the way to the upstream loop
-- (backend/internal/api/openai/handler.go and anthropic.go).
use wcs_transfer.Base.{◌≡◌, refl, ◌∙◌, Option, none, some, List, arith, Text}
use wcs_transfer.Entity.{Model, ModelRoute, ClientApiKey}
use wcs_transfer.Json.{Fields}
use wcs_transfer.Log.{ChatLogState}
use wcs_transfer.Routing.{
  Routed, ok, no_active_key, key_not_available, index_panic, RouterState, ProxyAttempt, SkippedKey,
  build_proxy_attempts,
}
use wcs_transfer.Proxy.{Endpoint}
use wcs_transfer.Checks.{
  Checked, refused, panicked, passed, and_then, Options, Request, Services, read_request,
  check_client_key, read_stream_flag, find_route, take_attempts, check_payload, check_reserve,
  encode_payload,
}
use wcs_transfer.Preflight.{prepare, choose_route, with_attempts, preflight}

-- The log in every outcome.
abbrev pub log_of : {A : Type 0} → Checked A → ChatLogState
log_of (refused s f) = s
log_of (panicked s) = s
log_of (passed s a) = s

-- Nothing is billed, and no success is noted, that was not before, and the client key is the same.
abbrev pub Kept : ChatLogState → ChatLogState → Type 0
Kept s s' =
    (s'.success ≡ s.success)
    × (s'.billable_amount ≡ s.billable_amount)
    × (s'.client_api_key_id ≡ s.client_api_key_id)

pub Kept-trans : (s s' s'' : ChatLogState) → Kept s s' → Kept s' s'' → Kept s s''
Kept-trans s s' s'' (e, b, k) (e', b', k') = (e' ∙ e, b' ∙ b, k' ∙ k)

pub and_then-Kept :
    {A B : Type 0} (s : ChatLogState) (c : Checked A) (k : ChatLogState → A → Checked B)
    → Kept s (log_of c)
    → ((s' : ChatLogState) (a : A) → Kept s' (log_of (k s' a)))
    → Kept s (log_of (and_then c k))
and_then-Kept s (refused s' f) k h next = h
and_then-Kept s (panicked s') k h next = h
and_then-Kept s (passed s' a) k h next = Kept-trans s s' (log_of (k s' a)) h (next s' a)

module _ (endpoint : Endpoint) (env : Services) where
  read_request-Kept :
      (options : Options) (request : Request) (s : ChatLogState)
      → Kept s (log_of (read_request endpoint env options request s))
  unfolding read_request
  read_request-Kept options request s = (ground arith, ground arith, ground arith)

  pub check_client_key-Kept :
      (key : Option ClientApiKey) (public_model : Text) (s : ChatLogState)
      → Kept s (log_of (check_client_key endpoint env key public_model s))
  unfolding check_client_key
  check_client_key-Kept none public_model s = (refl, refl, refl)
  check_client_key-Kept (some key) public_model s = (ground arith, ground arith, ground arith)

  find_route-Kept :
      (options : Options) (public_model : Text) (s : ChatLogState)
      → Kept s (log_of (find_route endpoint env options public_model s))
  unfolding find_route
  find_route-Kept options public_model s = (ground arith, ground arith, ground arith)

  check_payload-Kept :
      (model : Model) (payload : Fields) (s : ChatLogState)
      → Kept s (log_of (check_payload endpoint env model payload s))
  unfolding check_payload
  check_payload-Kept model payload s = (ground arith, ground arith, ground arith)

  check_reserve-Kept :
      (key : Option ClientApiKey) (payload : Fields) (model : Model) (s : ChatLogState)
      → Kept s (log_of (check_reserve endpoint env key payload model s))
  unfolding check_reserve
  check_reserve-Kept none payload model s = (refl, refl, refl)
  check_reserve-Kept (some key) payload model s = (ground arith, ground arith, ground arith)

  pub encode_payload-Kept :
      (route : ModelRoute) (attempts : List ProxyAttempt) (payload : Fields) (s : ChatLogState)
      → Kept s (log_of (encode_payload endpoint env route attempts payload s))
  unfolding encode_payload
  encode_payload-Kept route attempts payload s = (ground arith, ground arith, ground arith)

  pub take_attempts-Kept :
      (route : ModelRoute) (r : Routed (List ProxyAttempt × List SkippedKey)) (s : ChatLogState)
      → Kept s (log_of (take_attempts endpoint env route r s))
  unfolding take_attempts
  take_attempts-Kept route (ok (attempts, skipped)) s = (refl, refl, refl)
  take_attempts-Kept route no_active_key s = (refl, refl, refl)
  take_attempts-Kept route key_not_available s = (refl, refl, refl)
  take_attempts-Kept route index_panic s = (refl, refl, refl)

  read_stream_flag-Kept :
      (payload : Fields) (s : ChatLogState) → Kept s (read_stream_flag endpoint env payload s)
  read_stream_flag-Kept payload s = (ground arith, ground arith, ground arith)

  prepare-Kept :
      (request : Request) (route : ModelRoute) (payload : Fields) (attempts : List ProxyAttempt)
      (s : ChatLogState)
      → Kept s (log_of (prepare endpoint env request route payload attempts s))
  unfolding prepare
  prepare-Kept request route payload attempts s =
      and_then-Kept s (check_payload endpoint env route.model payload s) _
        (check_payload-Kept route.model payload s)
        (λ s₁ rewritten.
          and_then-Kept s₁ (check_reserve endpoint env request.client_key rewritten route.model s₁)
            _ (check_reserve-Kept request.client_key rewritten route.model s₁)
            (λ s₂ u. encode_payload-Kept route attempts rewritten s₂))

  choose_route-Kept :
      (options : Options) (request : Request) (s : ChatLogState)
      → Kept s (log_of (choose_route endpoint env options request s))
  unfolding choose_route
  choose_route-Kept options request s =
      and_then-Kept s (read_request endpoint env options request s) _
        (read_request-Kept options request s)
        (λ s₁ read.
          and_then-Kept s₁ (check_client_key endpoint env request.client_key read.1 s₁) _
            (check_client_key-Kept request.client_key read.1 s₁)
            (λ s₂ u.
              let flagged = read_stream_flag endpoint env read.0 s₂ in
              let routed = find_route endpoint env options read.1 flagged in
              and_then-Kept s₂ routed _
                (Kept-trans s₂ flagged (log_of routed) (read_stream_flag-Kept read.0 s₂)
                  (find_route-Kept options read.1 flagged))
                (λ s₃ route. (refl, refl, refl))))

  with_attempts-Kept :
      (router : RouterState) (options : Options) (request : Request) (s : ChatLogState)
      (c : Checked (ModelRoute × Fields))
      → Kept s (log_of c)
      → Kept s (log_of (with_attempts endpoint env router options request c).1)
  with_attempts-Kept router options request s (refused s' f) h = h
  with_attempts-Kept router options request s (panicked s') h = h
  with_attempts-Kept router options request s (passed s' (route, payload)) h =
      let built = (build_proxy_attempts router route options.ignore_key_health env.now).1 in
      let taken = take_attempts endpoint env route built s' in
      and_then-Kept s taken _ (Kept-trans s s' (log_of taken) h (take_attempts-Kept route built s'))
        (λ s'' attempts. prepare-Kept request route payload attempts s'')

  -- Whatever the preflight decides, it bills nothing, notes no success and keeps the client key.
  pub preflight-Kept :
      (router : RouterState) (options : Options) (request : Request) (s : ChatLogState)
      → Kept s (log_of (preflight endpoint env router options request s).1)
  unfolding preflight
  preflight-Kept router options request s =
      with_attempts-Kept router options request s (choose_route endpoint env options request s)
        (choose_route-Kept options request s)
