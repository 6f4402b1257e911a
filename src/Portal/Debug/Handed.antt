-- ===== src/Portal/Debug/Handed.antt =====
-- Whose keys the portal's debug route passes on, and to which handler
-- (backend/internal/router/router.go).
use wcs_transfer.Base.{
  ◌≡◌, refl, ap, ◌∙◌, Bool, Bool-cases, true, false, not, ◌&&◌, ◌||◌, Option, none, some,
  Option-cases, arith, if◌then◌else◌, inl, inr, ℤ, eqb_ℤ_iff, Text, codes, text_eq, text_eq_iff,
  is_empty, trim_space, ◌⊎◌,
}
use wcs_transfer.Entity.{ModelRoute, ClientApiKey}
use wcs_transfer.Access.{equal_fold}
use wcs_transfer.Checks.{Resolved}
use wcs_transfer.Checks
use wcs_transfer.ClientKeys.{
  Tables, Session, KeyResult, found, failed, no_rows, Given, get_client_api_key_by_id,
}
use wcs_transfer.ClientKeys.Writes.{get_user_client_api_key_by_id}
use wcs_transfer.ClientKeys.Authenticate.{key_of}
use wcs_transfer.Portal.Debug.{
  DebugRequest, Debug, DebugHandler, messages, gemini_generate_content,
  gemini_stream_generate_content, chat_completions, DebugAnswer, answered, handed, normalize_type,
  hand_over, no_keys, check_route, check_request, resolved_route, parse_int64,
  debug_chat_completions,
}

abbrev pub is_handed : DebugAnswer → Bool
is_handed (answered code) = false
is_handed (handed handler key body) = true

-- The handler for a kind of provider.
abbrev pub handler_for : Text → Bool → DebugHandler
handler_for kind stream =
    if text_eq kind (codes "anthropic")
    then messages
    else (if text_eq kind (codes "gemini")
        then (if stream then gemini_stream_generate_content else gemini_generate_content)
        else chat_completions)

result-cases :
    (result : KeyResult) → ((key : ClientApiKey) × (result ≡ found key)) ⊎ (key_of result ≡ none)
result-cases (found key) = inl (key, refl)
result-cases (failed stage) = inr refl
result-cases no_rows = inr refl

module _ (d : Debug) (given : Given) (session : Session) (t : Tables) where
  hand_over-handed :
      (key k : ClientApiKey) (req : DebugRequest) (body b : Text) (route : ModelRoute)
      (handler : DebugHandler)
      → hand_over d key req route body ≡ handed handler k b
      → (k ≡ key) × (handler ≡ handler_for (normalize_type route.provider.provider_type) req.stream)
  unfolding hand_over
  hand_over-handed key k req body b route handler e =
      elim (Bool-cases
        (text_eq (normalize_type route.provider.provider_type) (codes "anthropic"))) [
          | inl x ↦ ground (arith, e, x)
          | inr x ↦
              elim (Bool-cases
                (text_eq (normalize_type route.provider.provider_type) (codes "gemini"))) [
                  | inl y ↦ ground (arith, e, x, y)
                  | inr y ↦ ground (arith, e, x, y)
                ]
        ]

  check_route-handed :
      (key k : ClientApiKey) (req : DebugRequest) (body b : Text) (route : ModelRoute)
      (handler : DebugHandler)
      → check_route d key req body route ≡ handed handler k b
      → (k ≡ key)
        × (normalize_type req.provider_type ≡ normalize_type route.provider.provider_type)
        × (handler ≡ handler_for (normalize_type route.provider.provider_type) req.stream)
  unfolding check_route
  check_route-handed key k req body b route handler e =
      elim (Bool-cases (
        no_keys route.keys
        && not (equal_fold (trim_space route.provider.provider_type) (codes "vertexai")))) [
          | inl x ↦ absurd (ground (arith, e, x))
          | inr x ↦
              elim (Bool-cases (
                text_eq (normalize_type req.provider_type)
                  (normalize_type route.provider.provider_type))) [
                    | inr y ↦ absurd (ground (arith, e, x, y))
                    | inl y ↦
                        let (is_key, is_handler) =
                          hand_over-handed key k req body b route handler
                            (ground (arith, e, x, y)) in
                        (
                          is_key,
                          (text_eq_iff (normalize_type req.provider_type)
                                (normalize_type route.provider.provider_type)).0
                              y,
                          is_handler,
                        )
                  ]
        ]

  get_user-owned :
      (user_id key_id : ℤ) (key : ClientApiKey)
      → get_user_client_api_key_by_id given session t user_id key_id ≡ found key
      → key.user_id ≡ user_id
  unfolding get_user_client_api_key_by_id
  get_user-owned user_id key_id key e =
      elim (result-cases (get_client_api_key_by_id given session t key_id)) [
        | inl (read, x) ↦ ground (arith, e, x, eqb_ℤ_iff read.user_id user_id)
        | inr x ↦ ground (arith, e, x)
      ]

  -- The request that is read of a body, with the route of its model.
  abbrev pub IsRouted : Text → DebugHandler → Type 0
  IsRouted body handler =
      (req : DebugRequest) × (route : ModelRoute) × (d.read_request body ≡ some req)
      × (d.resolve_model_route req.model ≡ Checks.found route)
      × (normalize_type req.provider_type ≡ normalize_type route.provider.provider_type)
      × (handler ≡ handler_for (normalize_type route.provider.provider_type) req.stream)

  resolved-cases :
      (r : Resolved)
      → ((route : ModelRoute) × (r ≡ Checks.found route))
        ⊎ ((rest : ModelRoute → DebugAnswer) → is_handed (resolved_route rest r) ≡ false)
  resolved-cases (Checks.found route) = inl (route, refl)
  resolved-cases Checks.no_rows = inr (λ rest. refl)
  resolved-cases (Checks.database_error message) = inr (λ rest. refl)

  check_request-handed :
      (key k : ClientApiKey) (body b : Text) (handler : DebugHandler)
      → check_request d key body ≡ handed handler k b
      → (k ≡ key) × IsRouted body handler
  unfolding check_request
  check_request-handed key k body b handler e = elim (Option-cases (d.read_request body)) [
    | inl x ↦ absurd (ground (arith, e, x))
    | inr (req, x) ↦ elim (Bool-cases (is_empty req.model || is_empty req.provider_type)) [
      | inl y ↦ absurd (ground (arith, e, x, y))
      | inr y ↦ elim (resolved-cases (d.resolve_model_route req.model)) [
        | inr z ↦ absurd (ground (arith, e, x, y, ap is_handed e, z (check_route d key req body)))
        | inl (route, z) ↦
            let (is_key, types, is_handler) =
              check_route-handed key k req body b route handler (ground (arith, e, x, y, z)) in
            (is_key, (req, route, x, z, types, is_handler))
      ]
    ]
  ]

  -- The debug route passes a request on only with a key that is the user's own and active, to the
  -- handler for the kind of the provider that the model is routed to, which is the kind that the
  -- request names.
  pub debug_chat_completions-handed :
      (user_id : ℤ) (id : Text) (body : Option Text) (handler : DebugHandler) (k : ClientApiKey)
      (b : Text)
      → debug_chat_completions d given session t (some user_id) id body ≡ handed handler k b
      → (k.user_id ≡ user_id)
        × (k.status ≡ codes "active")
        × (text : Text) × (body ≡ some text)
        × IsRouted text handler
  unfolding debug_chat_completions
  debug_chat_completions-handed user_id id body handler k b e =
      elim (Option-cases (parse_int64 id)) [
        | inl p ↦ absurd (ground (arith, e, p))
        | inr (key_id, p) ↦
            elim (result-cases (get_user_client_api_key_by_id given session t user_id key_id)) [
              | inr n ↦ absurd (ground (arith, e, p, n))
              | inl (key, q) ↦ elim (Bool-cases (text_eq key.status (codes "active"))) [
                | inr s ↦ absurd (ground (arith, e, p, q, s))
                | inl s ↦ elim (Option-cases body) [
                  | inl n ↦ absurd (ground (arith, e, p, q, s, n))
                  | inr (text, o) ↦
                      let (is_key, routed) =
                        check_request-handed key k text b handler (ground (arith, e, p, q, s, o)) in
                      (
                        ap (λ x. x.user_id) is_key ∙ get_user-owned user_id key_id key q,
                        ap (λ x. x.status) is_key ∙ (text_eq_iff key.status (codes "active")).0 s,
                        text,
                        o,
                        routed,
                      )
                ]
              ]
            ]
      ]
