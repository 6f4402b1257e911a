-- ===== src/Checks.antt =====
-- The checks of a request before it goes upstream, one by one, in the order of the handlers
-- (backend/internal/api/openai/handler.go: `handleChatCompletions`, `handleEmbeddings`;
-- anthropic.go: `handleMessages`). The model store, the encoder and the decoder of JSON, and the
-- printing of numbers are arguments.
mod Types
unfoldable pub use Types.*
use wcs_transfer.Base.{
  ◌⊎◌, inl, inr, Bool, true, false, not, ◌&&◌, Option, none, some, List, ◌++◌, if◌then◌else◌,
  length, pos, ltb_ℤ, is_positive, Text, codes, is_empty, trim_space,
}
use wcs_transfer.Entity.{Money, Model, ModelRoute, ClientApiKey}
use wcs_transfer.Json.{str, Fields, get_field, set_field}
use wcs_transfer.Log.{ChatLogState}
use wcs_transfer.Billing.{
  estimate_prompt_tokens, estimate_chat_reserve_amount, estimate_anthropic_reserve_amount,
  estimate_embeddings_reserve_amount,
}
use wcs_transfer.Routing.{
  Routed, ok, no_active_key, key_not_available, index_panic, ProxyAttempt, SkippedKey,
  apply_chat_route_options,
}
use wcs_transfer.Payload.{
  extract_stream_flag, ensure_stream_options_include_usage, parse_payload, set_default,
}
use wcs_transfer.Access.{equal_fold, client_key_allows_model, client_key_budget_exceeded}
use wcs_transfer.Proxy.{Endpoint, chat_completions, embeddings, messages}

-- The store, the body and its parsing.
abbrev pub read_with :
    Services
    → (Text → Text ⊎ (Fields × Text))
    → Options
    → Request
    → ChatLogState
    → Checked (Fields × Text)
read_with env parse options request s =
    if not env.store_configured
    then fail s (pos 503) (codes "service_unavailable") (codes "model store is not configured")
    else (elim (if is_empty options.request_body then request.body else some options.request_body) [
      | none ↦ fail s (pos 400) (codes "invalid_request") (codes "failed to read request body")
      | some body ↦ elim (parse body) [
        | inl error ↦ fail s (pos 400) (codes "invalid_request") error
        | inr (payload, public_model) ↦
            passed (record s { model_public_name = public_model }) (payload, public_model)
      ]
    ])

module _ (endpoint : Endpoint) (env : Services) where
  unfoldable pub read_request : Options → Request → ChatLogState → Checked (Fields × Text)
  unfolding parse_payload
  read_request = read_with env (parse_payload endpoint env.decode)

  -- What a client key may use, and its budgets.
  unfoldable pub check_client_key : Option ClientApiKey → Text → ChatLogState → Checked Bool
  check_client_key none public_model s = passed s true
  check_client_key (some client_key) public_model s =
      if not (client_key_allows_model client_key public_model)
      then fail s (pos 403) (codes "model_forbidden")
          (codes "client api key is not allowed to access this model")
      else (elim (client_key_budget_exceeded client_key) [
        | some message ↦ fail s (pos 429) (codes "budget_exceeded") message
        | none ↦ elim client_key.cost_usage [
          | none ↦ passed s true
          | some usage ↦
              passed
                (if usage.is_warning_triggered
                  then record s { metadata = record (s.metadata) { budget_warning = true } }
                  else s)
                true
        ]
      ])

  -- The stream flag, which embeddings do not have, and the option that makes the upstream report
  -- usage, which only chat completions set.
  abbrev pub read_stream_flag : Fields → ChatLogState → ChatLogState
  read_stream_flag payload s = elim endpoint [
    | embeddings ↦ s
    | chat_completions ↦ record s {
      metadata = record (s.metadata) { stream = extract_stream_flag payload };
    }
    | messages ↦ record s {
      metadata = record (s.metadata) { stream = extract_stream_flag payload };
    }
  ]

  abbrev pub with_stream_options : Fields → Fields
  with_stream_options payload = elim endpoint [
    | chat_completions ↦
        if extract_stream_flag payload then ensure_stream_options_include_usage payload else payload
    | embeddings ↦ payload
    | messages ↦ payload
  ]

  -- Messages are for providers of one type.
  abbrev pub provider_fits : ModelRoute → Bool
  provider_fits route = elim endpoint [
    | messages ↦ equal_fold (trim_space route.provider.provider_type) (codes "anthropic")
    | chat_completions ↦ true
    | embeddings ↦ true
  ]

  unfoldable pub find_route : Options → Text → ChatLogState → Checked ModelRoute
  find_route options public_model s = elim (env.resolve_model_route public_model) [
    | no_rows ↦ fail s (pos 404) (codes "not_found") (codes "model not found or unavailable")
    | database_error message ↦ fail s (pos 500) (codes "database_error") message
    | found route ↦
        if not (provider_fits route)
        then fail s (pos 400) (codes "invalid_provider_type")
            (codes "selected model is not configured for anthropic messages")
        else (let s' = record s {
          upstream_model = route.model.upstream_model;
          provider_id = route.provider.id;
        } in
            elim (apply_chat_route_options route options.route_strategy options.provider_key_id) [
              | ok chosen ↦ passed s' chosen
              | no_active_key ↦
                  fail s' (pos 400) (codes "invalid_request")
                    (codes "selected provider key is not available for the requested model")
              | key_not_available ↦
                  fail s' (pos 400) (codes "invalid_request")
                    (codes "selected provider key is not available for the requested model")
              | index_panic ↦
                  fail s' (pos 400) (codes "invalid_request")
                    (codes "selected provider key is not available for the requested model")
            ])
  ]

  -- The result of `buildProxyAttempts`.
  unfoldable pub take_attempts :
      ModelRoute
      → Routed (List ProxyAttempt × List SkippedKey)
      → ChatLogState
      → Checked (List ProxyAttempt)
  take_attempts route (ok (attempts, skipped)) s =
      passed
        (record s {
          metadata = record (s.metadata) { candidate_key_count = some (length route.keys) };
        })
        attempts
  take_attempts route no_active_key s =
      fail s (pos 503) (codes "routing_error")
        (codes "no active provider key is available for the requested model")
  take_attempts route key_not_available s =
      fail s (pos 503) (codes "routing_error")
        (codes "no active provider key is available for the requested model")
  take_attempts route index_panic s = panicked s

  abbrev pub default_max_tokens : Model → Fields → Fields
  default_max_tokens model payload =
      if is_positive model.max_tokens
      then set_default (codes "max_tokens") (env.integer model.max_tokens) payload
      else payload

  -- The payload for upstream: its name of the model, and the model's settings where the client set
  -- none. The second component is `false` for messages without a limit on tokens.
  unfoldable pub rewrite_payload : Model → Fields → Fields × Bool
  rewrite_payload model payload =
      let named = set_field (codes "model") (str model.upstream_model) payload in
      elim endpoint [
        | embeddings ↦ (named, true)
        | chat_completions ↦ (
          set_default (codes "temperature") (env.temperature model.temperature)
              (default_max_tokens model named),
          true,
        )
        | messages ↦
            (let limited = default_max_tokens model named in
              elim (get_field (codes "max_tokens") limited) [
                | none ↦ (limited, false)
                | some limit ↦ (
                  if is_positive model.temperature
                      then set_default (codes "temperature") (env.temperature model.temperature)
                          limited
                      else limited,
                  true,
                )
              ])
      ]

  abbrev pub prompt_field : Text
  prompt_field = elim endpoint [
    | embeddings ↦ codes "input"
    | chat_completions ↦ codes "messages"
    | messages ↦ codes "messages"
  ]

  unfoldable pub check_payload : Model → Fields → ChatLogState → Checked Fields
  check_payload model payload s =
      let (rewritten, limited) = rewrite_payload model payload in
      if limited
      then passed
          (record s {
            prompt_tokens =
                estimate_prompt_tokens env.number_text (get_field prompt_field rewritten);
          })
          rewritten
      else fail s (pos 400) (codes "invalid_request")
          (codes "max_tokens is required for anthropic messages")

  unfoldable pub required_reserve : Fields → Model → Money
  required_reserve payload model = elim endpoint [
    | chat_completions ↦ estimate_chat_reserve_amount env.number_text payload model
    | embeddings ↦ estimate_embeddings_reserve_amount env.number_text payload model
    | messages ↦ estimate_anthropic_reserve_amount env.number_text payload model
  ]

  -- The wallet of the key's owner has to hold the reserve.
  unfoldable pub check_reserve : Option ClientApiKey → Fields → Model → ChatLogState → Checked Bool
  check_reserve none payload model s = passed s true
  check_reserve (some client_key) payload model s =
      if not (is_positive client_key.user_id)
      then passed s true
      else (let required = required_reserve payload model in
          let s' = record s {
            reserved_amount = required;
            metadata = record (s.metadata) { required_wallet_reserve = some required };
          } in
          if is_positive required && ltb_ℤ client_key.user_wallet_balance required
          then fail s' (pos 402) (codes "wallet_reserve_insufficient") (
              codes "tenant wallet balance is below the required reserve "
              ++ env.format_amount required
              ++ codes " USD")
          else passed s' true)

  unfoldable pub encode_payload :
      ModelRoute → List ProxyAttempt → Fields → ChatLogState → Checked Prepared
  encode_payload route attempts payload s = elim (env.encode payload) [
    | none ↦ fail s (pos 500) (codes "internal_error") (codes "failed to encode upstream payload")
    | some body ↦
        passed s
          (record { route = route; attempts = attempts; payload = payload; rewritten_body = body })
  ]
