-- ===== src/Gemini/Admission.antt =====
-- The checks of a Gemini request before it goes upstream, in their order
-- (backend/internal/api/openai/gemini.go: `handleGeminiGenerateContent`). Unlike the other
-- endpoints, the wallet is compared with the reserve before the keys are looked at.
pub mod Kept
pub mod Admitted
use wcs_transfer.Base.{
  Bool, true, not, ◌&&◌, ◌||◌, Option, none, some, [], ◌∷◌, ◌++◌, if◌then◌else◌, pos, ltb_ℤ,
  is_positive, Text, codes, trim_space,
}
use wcs_transfer.Entity.{Model, ModelRoute, ClientApiKey}
use wcs_transfer.Json.{Fields, get_field}
use wcs_transfer.Log.{ChatLogState, first_non_empty}
use wcs_transfer.Billing.{estimate_prompt_tokens}
use wcs_transfer.Routing.{
  ok, no_active_key, key_not_available, index_panic, RouterState, apply_chat_route_options,
  build_proxy_attempts,
}
use wcs_transfer.Access.{equal_fold}
use wcs_transfer.Proxy.{chat_completions}
use wcs_transfer.Checks.{
  Checked, refused, panicked, passed, fail, and_then, Options, Request, Services, Prepared, found,
  no_rows, database_error, read_with, check_client_key, take_attempts, encode_payload,
}
use wcs_transfer.RequestLog.{start_log}
use wcs_transfer.Gemini.{
  parse_gemini_generate_content_payload, upstream_payload, estimate_gemini_reserve_amount,
}

-- The log that the handler starts with.
unfoldable pub start_gemini_log : Text → Text → Bool → Option ClientApiKey → ChatLogState
start_gemini_log trace_id request_type stream client_key =
    let s =
      start_log trace_id (first_non_empty (request_type ∷ codes "gemini_generate_content" ∷ []))
        client_key in
    record s { metadata = record (s.metadata) { stream = stream } }

-- `vertexAIProviderType`
unfoldable pub is_vertex_ai : ModelRoute → Bool
is_vertex_ai route = equal_fold (trim_space route.provider.provider_type) (codes "vertexai")

unfoldable pub is_gemini : ModelRoute → Bool
is_gemini route = equal_fold (trim_space route.provider.provider_type) (codes "gemini")

module _ (env : Services) where
  -- The payload with its route, for a provider of one of the two types.
  unfoldable pub find_gemini_route : Text → ChatLogState → Checked ModelRoute
  find_gemini_route public_model s = elim (env.resolve_model_route public_model) [
    | no_rows ↦ fail s (pos 404) (codes "not_found") (codes "model not found or unavailable")
    | database_error message ↦ fail s (pos 500) (codes "database_error") message
    | found route ↦
        if is_gemini route || is_vertex_ai route
        then passed
            (record s {
              upstream_model = route.model.upstream_model;
              provider_id = route.provider.id;
            })
            route
        else fail s (pos 400) (codes "invalid_provider_type")
            (codes "selected model is not configured for gemini native api")
  ]

  -- The estimate for Vertex AI, `estimateVertexAIReserveAmount`, is the same.
  unfoldable pub check_gemini_reserve :
      Option ClientApiKey → Fields → Model → ChatLogState → Checked Bool
  check_gemini_reserve none payload model s = passed s true
  check_gemini_reserve (some client_key) payload model s =
      if not (is_positive client_key.user_id)
      then passed s true
      else (let required = estimate_gemini_reserve_amount env.number_text payload model in
          let s' = record s {
            reserved_amount = required;
            metadata = record (s.metadata) { required_wallet_reserve = some required };
          } in
          if is_positive required && ltb_ℤ client_key.user_wallet_balance required
          then fail s' (pos 402) (codes "wallet_reserve_insufficient") (
              codes "wallet balance is below the required reserve "
              ++ env.format_amount required
              ++ codes " USD")
          else passed s' true)

  abbrev pub with_estimate : Fields → ChatLogState → ChatLogState
  with_estimate payload s = record s {
    prompt_tokens = estimate_prompt_tokens env.number_text (get_field (codes "contents") payload);
  }

  -- The payload for upstream, with the estimate of its tokens in the log.
  unfoldable pub prepare_gemini :
      Option ClientApiKey → Fields → ModelRoute → ChatLogState → Checked (ModelRoute × Fields)
  prepare_gemini client_key payload route s =
      let sent = upstream_payload env.temperature env.integer route.model payload in
      and_then (check_gemini_reserve client_key sent route.model (with_estimate sent s))
        (λ s' u. passed s' (route, sent))

  unfoldable pub admit_gemini : Options → Request → ChatLogState → Checked (ModelRoute × Fields)
  unfolding parse_gemini_generate_content_payload
  admit_gemini options request s =
      and_then (read_with env (parse_gemini_generate_content_payload env.decode) options request s)
        (λ s₁ read.
          and_then (check_client_key chat_completions env request.client_key read.1 s₁) (λ s₂ u.
            and_then (find_gemini_route read.1 s₂)
              (λ s₃ route. prepare_gemini request.client_key read.0 route s₃)))

  -- For a provider with keys: the administrator's choice of a key, and the attempts.
  abbrev pub choose_key : Options → ModelRoute → ChatLogState → Checked ModelRoute
  choose_key options route s =
      elim (apply_chat_route_options route options.route_strategy options.provider_key_id) [
        | ok chosen ↦ passed s chosen
        | no_active_key ↦
            fail s (pos 400) (codes "invalid_request")
              (codes "selected provider key is not available for the requested model")
        | key_not_available ↦
            fail s (pos 400) (codes "invalid_request")
              (codes "selected provider key is not available for the requested model")
        | index_panic ↦
            fail s (pos 400) (codes "invalid_request")
              (codes "selected provider key is not available for the requested model")
      ]

  abbrev pub with_key :
      RouterState → Options → Fields → Checked ModelRoute → RouterState × Checked Prepared
  with_key router options payload (refused s f) = (router, refused s f)
  with_key router options payload (panicked s) = (router, panicked s)
  with_key router options payload (passed s route) =
      let (router', built) = build_proxy_attempts router route options.ignore_key_health env.now in
      (
        router',
        and_then (take_attempts chat_completions env route built s)
            (λ s' attempts. encode_payload chat_completions env route attempts payload s'),
      )

  unfoldable pub gemini_attempts :
      RouterState → Options → ModelRoute → Fields → ChatLogState → RouterState × Checked Prepared
  gemini_attempts router options route payload s =
      with_key router options payload (choose_key options route s)
