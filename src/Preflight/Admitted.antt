-- ===== src/Preflight/Admitted.antt =====
-- What holds of a request that is let through to upstream
-- (backend/internal/api/openai/handler.go and anthropic.go).
use wcs_transfer.Base.{
  ◌≡◌, refl, sym, ap, ◌∙◌, Bool, true, Option, none, some, List, arith, ◌≤ℤ◌, is_positive, Text,
}
use wcs_transfer.Entity.{Money, Model, ModelRoute, ClientApiKey}
use wcs_transfer.Json.{Fields}
use wcs_transfer.Log.{ChatLogState}
use wcs_transfer.Access.{client_key_allows_model, client_key_budget_exceeded}
use wcs_transfer.Routing.{
  Routed, ok, no_active_key, key_not_available, index_panic, RouterState, ProxyAttempt, SkippedKey,
  build_proxy_attempts,
}
use wcs_transfer.Proxy.{Endpoint}
use wcs_transfer.Checks.{
  Checked, refused, panicked, passed, and_then, Options, Request, Services, Prepared, read_request,
  check_client_key, read_stream_flag, find_route, take_attempts, check_payload, required_reserve,
  check_reserve, encode_payload,
}
use wcs_transfer.Preflight.{prepare, choose_route, with_attempts, preflight}

pub and_then-passed :
    {A B : Type 0} (c : Checked A) (k : ChatLogState → A → Checked B) (s : ChatLogState) (b : B)
    → and_then c k ≡ passed s b
    → (s' : ChatLogState) × (a : A) × (c ≡ passed s' a) × (k s' a ≡ passed s b)
and_then-passed (refused s' f) k s b e = cc
and_then-passed (panicked s') k s b e = cc
and_then-passed (passed s' a) k s b e = (s', a, refl, e)

-- The key may use the model, and no budget of it is used up.
abbrev pub IsAllowed : Option ClientApiKey → Text → Type 0
IsAllowed none model = Unit
IsAllowed (some key) model =
    (client_key_allows_model key model ≡ true) × (client_key_budget_exceeded key ≡ none)

-- For a key with an owner, the log has the reserve, and the wallet holds it if there is any.
abbrev pub IsCovered : Option ClientApiKey → Money → ChatLogState → Type 0
IsCovered none required s = Unit
IsCovered (some key) required s =
    is_positive key.user_id ≡ true
    → (s.reserved_amount ≡ required)
      × (is_positive required ≡ true → required ≤ℤ key.user_wallet_balance)

-- The log of a result that is passed on.
abbrev pub passed_log : {A : Type 0} → Checked A → ChatLogState → ChatLogState
passed_log (refused s f) s' = s'
passed_log (panicked s) s' = s'
passed_log (passed s a) s' = s

module _ (endpoint : Endpoint) (env : Services) where
  read_request-name :
      (options : Options) (request : Request) (s s' : ChatLogState) (read : Fields × Text)
      → read_request endpoint env options request s ≡ passed s' read
      → s'.model_public_name ≡ read.1
  unfolding read_request
  read_request-name options request s s' read e = ground (arith, e)

  pub check_client_key-name :
      (key : Option ClientApiKey) (model : Text) (s s' : ChatLogState) (u : Bool)
      → check_client_key endpoint env key model s ≡ passed s' u
      → s'.model_public_name ≡ s.model_public_name
  unfolding check_client_key
  check_client_key-name key model s s' u e = ground (arith, e)

  pub check_client_key-IsAllowed :
      (key : Option ClientApiKey) (model : Text) (s s' : ChatLogState) (u : Bool)
      → check_client_key endpoint env key model s ≡ passed s' u
      → IsAllowed key model
  unfolding check_client_key
  check_client_key-IsAllowed none model s s' u e = tt
  check_client_key-IsAllowed (some k) model s s' u e = (ground (arith, e), ground (arith, e))

  read_stream_flag-name :
      (payload : Fields) (s : ChatLogState)
      → (read_stream_flag endpoint env payload s).model_public_name ≡ s.model_public_name
  read_stream_flag-name payload s = ground arith

  find_route-name :
      (options : Options) (model : Text) (s s' : ChatLogState) (route : ModelRoute)
      → find_route endpoint env options model s ≡ passed s' route
      → s'.model_public_name ≡ s.model_public_name
  unfolding find_route
  find_route-name options model s s' route e = ground (arith, e)

  take_attempts-name :
      (route : ModelRoute) (r : Routed (List ProxyAttempt × List SkippedKey)) (s s' : ChatLogState)
      (attempts : List ProxyAttempt)
      → take_attempts endpoint env route r s ≡ passed s' attempts
      → s'.model_public_name ≡ s.model_public_name
  unfolding take_attempts
  take_attempts-name route (ok (built, skipped)) s s' attempts e = ground (arith, e)
  take_attempts-name route no_active_key s s' attempts e = cc
  take_attempts-name route key_not_available s s' attempts e = cc
  take_attempts-name route index_panic s s' attempts e = cc

  check_payload-name :
      (model : Model) (payload rewritten : Fields) (s s' : ChatLogState)
      → check_payload endpoint env model payload s ≡ passed s' rewritten
      → s'.model_public_name ≡ s.model_public_name
  unfolding check_payload
  check_payload-name model payload rewritten s s' e = ground (arith, e)

  check_reserve-name :
      (key : Option ClientApiKey) (payload : Fields) (model : Model) (s s' : ChatLogState)
      (u : Bool)
      → check_reserve endpoint env key payload model s ≡ passed s' u
      → s'.model_public_name ≡ s.model_public_name
  unfolding check_reserve
  check_reserve-name none payload model s s' u e = ground (arith, e)
  check_reserve-name (some key) payload model s s' u e = ground (arith, e)

  check_reserve-IsCovered :
      (key : Option ClientApiKey) (payload : Fields) (model : Model) (s s' : ChatLogState)
      (u : Bool)
      → check_reserve endpoint env key payload model s ≡ passed s' u
      → IsCovered key (required_reserve endpoint env payload model) s'
  unfolding check_reserve
  check_reserve-IsCovered none payload model s s' u e = tt
  check_reserve-IsCovered (some key) payload model s s' u e =
      λ owned. (ground (arith, e, owned), λ some_reserve. ground (arith, e, owned, some_reserve))

  encode_payload-passed :
      (route : ModelRoute) (attempts : List ProxyAttempt) (payload : Fields) (s s' : ChatLogState)
      (p : Prepared)
      → encode_payload endpoint env route attempts payload s ≡ passed s' p
      → (s' ≡ s) × (p.payload ≡ payload) × (p.route ≡ route) × (p.attempts ≡ attempts)
  unfolding encode_payload
  encode_payload-passed route attempts payload s s' p e =
      (ground (arith, e), ground (arith, e), ground (arith, e), ground (arith, e))

  -- The conditions of a request that is let through.
  abbrev pub IsAdmitted : Request → ChatLogState → Prepared → Type 0
  IsAdmitted request s p =
      IsAllowed request.client_key s.model_public_name
      × IsCovered request.client_key (required_reserve endpoint env p.payload p.route.model) s

  prepare-IsCovered :
      (request : Request) (route : ModelRoute) (payload : Fields) (attempts : List ProxyAttempt)
      (s s' : ChatLogState) (p : Prepared)
      → prepare endpoint env request route payload attempts s ≡ passed s' p
      → (s'.model_public_name ≡ s.model_public_name)
        × (p.attempts ≡ attempts)
        × IsCovered request.client_key (required_reserve endpoint env p.payload p.route.model) s'
  unfolding prepare
  prepare-IsCovered request route payload attempts s s' p e =
      let (s₁, rewritten, checked, e₁) =
        and_then-passed (check_payload endpoint env route.model payload s) _ s' p e in
      let (s₂, u, reserved, e₂) =
        and_then-passed (check_reserve endpoint env request.client_key rewritten route.model s₁) _
          s' p e₁ in
      let (s_same, payload_same, route_same, attempts_same) =
        encode_payload-passed route attempts rewritten s₂ s' p e₂ in
      (
        ap (λ (t : ChatLogState). t.model_public_name) s_same
            ∙ check_reserve-name request.client_key rewritten route.model s₁ s₂ u reserved
            ∙ check_payload-name route.model payload rewritten s s₁ checked,
        attempts_same,
        rw (s_same, payload_same, route_same)
            (check_reserve-IsCovered request.client_key rewritten route.model s₁ s₂ u reserved),
      )

  choose_route-IsAllowed :
      (options : Options) (request : Request) (s s' : ChatLogState) (chosen : ModelRoute × Fields)
      → choose_route endpoint env options request s ≡ passed s' chosen
      → IsAllowed request.client_key s'.model_public_name
  unfolding choose_route
  choose_route-IsAllowed options request s s' chosen e =
      let (s₁, read, read_e, e₁) =
        and_then-passed (read_request endpoint env options request s) _ s' chosen e in
      let (s₂, u, key_e, e₂) =
        and_then-passed (check_client_key endpoint env request.client_key read.1 s₁) _ s' chosen
          e₁ in
      let flagged = read_stream_flag endpoint env read.0 s₂ in
      let (s₃, route, route_e, e₃) =
        and_then-passed (find_route endpoint env options read.1 flagged) _ s' chosen e₂ in
      let last : s'.model_public_name ≡ s₃.model_public_name =
        ap (λ c. (passed_log c s₃).model_public_name) (sym e₃) in
      let name : s'.model_public_name ≡ read.1 =
        last
        ∙ find_route-name options read.1 flagged s₃ route route_e
        ∙ read_stream_flag-name read.0 s₂
        ∙ check_client_key-name request.client_key read.1 s₁ s₂ u key_e
        ∙ read_request-name options request s s₁ read read_e in
      rw name (check_client_key-IsAllowed request.client_key read.1 s₁ s₂ u key_e)

  with_attempts-passed :
      (router router' : RouterState) (options : Options) (request : Request)
      (c : Checked (ModelRoute × Fields)) (s : ChatLogState) (p : Prepared)
      → with_attempts endpoint env router options request c ≡ (router', passed s p)
      → (s₁ : ChatLogState) × (chosen : ModelRoute × Fields) × (c ≡ passed s₁ chosen)
        × (s.model_public_name ≡ s₁.model_public_name)
        × IsCovered request.client_key (required_reserve endpoint env p.payload p.route.model) s
  with_attempts-passed router router' options request (refused s₁ f) s p e = cc
  with_attempts-passed router router' options request (panicked s₁) s p e = cc
  with_attempts-passed router router' options request (passed s₁ (route, payload)) s p e =
      let built = (build_proxy_attempts router route options.ignore_key_health env.now).1 in
      let (s₂, attempts, taken, e₂) =
        and_then-passed (take_attempts endpoint env route built s₁) _ s p (ap (λ r. r.1) e) in
      let (name, same, covered) = prepare-IsCovered request route payload attempts s₂ s p e₂ in
      (
        s₁,
        (route, payload),
        refl,
        name ∙ take_attempts-name route built s₁ s₂ attempts taken,
        covered,
      )

  -- A request that reaches the upstream loop was let through: its key may use the model that the
  -- log names and has budget left, and the wallet of the key's owner holds the reserve that is
  -- required for the payload that is sent, if there is one to hold.
  pub preflight-IsAdmitted :
      (router router' : RouterState) (options : Options) (request : Request) (s s' : ChatLogState)
      (p : Prepared)
      → preflight endpoint env router options request s ≡ (router', passed s' p)
      → IsAdmitted request s' p
  unfolding preflight
  preflight-IsAdmitted router router' options request s s' p e =
      let (s₁, chosen, chose, name, covered) =
        with_attempts-passed router router' options request
          (choose_route endpoint env options request s) s' p e in
      (rw name (choose_route-IsAllowed options request s s₁ chosen chose), covered)
