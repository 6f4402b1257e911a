-- ===== src/Gemini/Admission/Admitted.antt =====
-- What holds of a Gemini request that is let through (backend/internal/api/openai/gemini.go).
use wcs_transfer.Base.{◌≡◌, sym, ap, ◌∙◌, Bool, true, ◌||◌, Option, none, some, arith, Text}
use wcs_transfer.Entity.{Model, ModelRoute, ClientApiKey}
use wcs_transfer.Json.{Fields}
use wcs_transfer.Log.{ChatLogState}
use wcs_transfer.Proxy.{chat_completions}
use wcs_transfer.Checks.{passed, Options, Request, Services, read_with, check_client_key}
use wcs_transfer.Preflight.Admitted.{
  and_then-passed, passed_log, IsAllowed, IsCovered, check_client_key-name,
  check_client_key-IsAllowed,
}
use wcs_transfer.Gemini.{
  parse_gemini_generate_content_payload, upstream_payload, estimate_gemini_reserve_amount,
}
use wcs_transfer.Gemini.Admission.{
  is_gemini, is_vertex_ai, find_gemini_route, check_gemini_reserve, with_estimate, prepare_gemini,
  admit_gemini,
}

module _ (env : Services) where
  read-name :
      (options : Options) (request : Request) (s s' : ChatLogState) (read : Fields × Text)
      → read_with env (parse_gemini_generate_content_payload env.decode) options request s
        ≡ passed s' read
      → s'.model_public_name ≡ read.1
  read-name options request s s' read e = ground (arith, e)

  find_gemini_route-passed :
      (model : Text) (s s' : ChatLogState) (route : ModelRoute)
      → find_gemini_route env model s ≡ passed s' route
      → (s'.model_public_name ≡ s.model_public_name)
        × ((is_gemini route || is_vertex_ai route) ≡ true)
  unfolding find_gemini_route
  find_gemini_route-passed model s s' route e = (ground (arith, e), ground (arith, e))

  check_gemini_reserve-passed :
      (key : Option ClientApiKey) (payload : Fields) (model : Model) (s s' : ChatLogState)
      (u : Bool)
      → check_gemini_reserve env key payload model s ≡ passed s' u
      → (s'.model_public_name ≡ s.model_public_name)
        × IsCovered key (estimate_gemini_reserve_amount env.number_text payload model) s'
  unfolding check_gemini_reserve
  check_gemini_reserve-passed none payload model s s' u e = (ground (arith, e), tt)
  check_gemini_reserve-passed (some key) payload model s s' u e = (
    ground (arith, e),
    λ owned. (ground (arith, e, owned), λ some_reserve. ground (arith, e, owned, some_reserve)),
  )

  prepare_gemini-passed :
      (key : Option ClientApiKey) (payload : Fields) (route : ModelRoute) (s s' : ChatLogState)
      (admitted : ModelRoute × Fields)
      → prepare_gemini env key payload route s ≡ passed s' admitted
      → (admitted.0 ≡ route)
        × (s'.model_public_name ≡ s.model_public_name)
        × IsCovered key
            (estimate_gemini_reserve_amount env.number_text admitted.1 admitted.0.model)
            s'
  unfolding prepare_gemini
  prepare_gemini-passed key payload route s s' admitted e =
      let sent = upstream_payload env.temperature env.integer route.model payload in
      let estimated = with_estimate env sent s in
      let (s₁, u, reserved, e₁) =
        and_then-passed (check_gemini_reserve env key sent route.model estimated) _ s' admitted e in
      let (name, covered) =
        check_gemini_reserve-passed key sent route.model estimated s₁ u reserved in
      let log : s₁ ≡ s' = ap (λ c. passed_log c s₁) e₁ in
      let same : (route, sent) ≡ admitted = ground (arith, e₁) in
      (
        ap (λ (r : ModelRoute × Fields). r.0) (sym same),
        rw (← log) name,
        rw (← same, ← log) covered,
      )

  -- The conditions of a request that is let through.
  abbrev pub IsGeminiAdmitted : Request → ChatLogState → ModelRoute → Fields → Type 0
  IsGeminiAdmitted request s route payload =
      IsAllowed request.client_key s.model_public_name
      × IsCovered request.client_key
          (estimate_gemini_reserve_amount env.number_text payload route.model) s
      × ((is_gemini route || is_vertex_ai route) ≡ true)

  -- A Gemini request that goes upstream was let through: its key may use the model that the log
  -- names and has budget left, the wallet of the key's owner holds the reserve for the payload that
  -- is sent, if there is one to hold, and the provider is of one of the two types.
  pub admit_gemini-IsGeminiAdmitted :
      (options : Options) (request : Request) (s s' : ChatLogState) (route : ModelRoute)
      (payload : Fields)
      → admit_gemini env options request s ≡ passed s' (route, payload)
      → IsGeminiAdmitted request s' route payload
  unfolding admit_gemini
  admit_gemini-IsGeminiAdmitted options request s s' route payload e =
      let (s₁, read, read_e, e₁) =
        and_then-passed
          (read_with env (parse_gemini_generate_content_payload env.decode) options request s) _ s'
          (route, payload) e in
      let (s₂, u, key_e, e₂) =
        and_then-passed (check_client_key chat_completions env request.client_key read.1 s₁) _ s'
          (route, payload) e₁ in
      let (s₃, found, route_e, e₃) =
        and_then-passed (find_gemini_route env read.1 s₂) _ s' (route, payload) e₂ in
      let (name, fits) = find_gemini_route-passed read.1 s₂ s₃ found route_e in
      let (same, kept, covered) =
        prepare_gemini-passed request.client_key read.0 found s₃ s' (route, payload) e₃ in
      let named : s'.model_public_name ≡ read.1 =
        kept
        ∙ name
        ∙ check_client_key-name chat_completions env request.client_key read.1 s₁ s₂ u key_e
        ∙ read-name options request s s₁ read read_e in
      (
        rw named (
            check_client_key-IsAllowed chat_completions env request.client_key read.1 s₁ s₂ u
              key_e),
        covered,
        rw same fits,
      )
