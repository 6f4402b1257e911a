-- ===== src/Gemini/Handler/Unbilled.antt =====
-- When a Gemini request is not billed (backend/internal/api/openai/gemini.go and
-- gemini_vertexai.go).
use wcs_transfer.Base.{
  ℕ, ◌≡◌, refl, ◌∙◌, ◌⊎◌, inl, inr, Bool, true, false, not, Option, some, arith, if◌then◌else◌, pos,
  Text, codes, is_empty,
}
use wcs_transfer.Entity.{Model, ModelRoute}
use wcs_transfer.Json.{Fields, get_field}
use wcs_transfer.Log.{ChatLogState}
use wcs_transfer.Routing.{RouterState}
use wcs_transfer.Proxy.{Upstream}
use wcs_transfer.Checks.{Failure, Checked, refused, panicked, passed, Options, Request, Services}
use wcs_transfer.Preflight.Kept.{log_of}
use wcs_transfer.Respond.{Answer, gemini, write_json_error}
use wcs_transfer.Serve.{Handled}
use wcs_transfer.Serve.Unbilled.{
  FreeOrSuccess, Unbilled, handled-Unbilled, after_preflight-Unbilled,
}
use wcs_transfer.VertexSdk.{Sdk, Clients, Generated, parse_vertex_ai_config, get_vertex_ai_client}
use wcs_transfer.VertexAi.{
  send_generated, non_stream_vertex_ai_sdk_response, answer_client, with_client,
  handle_with_vertex_ai_sdk,
}
use wcs_transfer.Gemini.Admission.{is_vertex_ai, gemini_attempts}
use wcs_transfer.Gemini.Admission.Kept.{gemini_attempts-Kept}
use wcs_transfer.Gemini.Handler.{after_admission}

-- Every whole response of the SDK can be encoded as JSON.
abbrev pub IsEncodable : {Client : Type 0} → Sdk Client → Type 0
IsEncodable {Client} sdk =
    (client : Client) (model : Text) (payload : Fields) (g : Generated)
    → sdk.generate_content client model payload ≡ inr g
    → (json : Text) × (g.json ≡ some json)

-- A property of both branches.
pub if_both :
    {A : Type 0} (P : A → Type 0) (test : Bool) {x y : A} → P x → P y → P (if test then x else y)
if_both P true h k = h
if_both P false h k = k

error-Free :
    (f : Failure) (s : ChatLogState)
    → s.billable_amount ≡ pos 0
    → FreeOrSuccess (write_json_error f s)
unfolding write_json_error
error-Free f s h = inr (inr h)

send_generated-status :
    (model : Model) (g : Generated) (json : Text) (s : ChatLogState)
    → g.json ≡ some json
    → (send_generated model g s).1.status ≡ pos 200
unfolding send_generated
send_generated-status model g json s e = ground (arith, e)

whole-Free :
    (model : Model) (result : Text ⊎ Generated) (s : ChatLogState)
    → ((g : Generated) → result ≡ inr g → (json : Text) × (g.json ≡ some json))
    → s.billable_amount ≡ pos 0
    → FreeOrSuccess (non_stream_vertex_ai_sdk_response model result s)
unfolding non_stream_vertex_ai_sdk_response
whole-Free model (inl error) s encodes h = error-Free _ s h
whole-Free model (inr g) s encodes h =
    let (json, e) = encodes g refl in
    let status = send_generated-status model g json s e in inl (ground (arith, status))

module _ {Client : Type 0} (env : Services) (sdk : Sdk Client) (write_error : ℕ → Option Text)
    (encodable : IsEncodable sdk) where
  answer_client-Free :
      (stream : Bool) (route : ModelRoute) (payload : Fields) (s : ChatLogState) (client : Client)
      → s.billable_amount ≡ pos 0
      → FreeOrSuccess (answer_client env sdk write_error stream route payload s client)
  answer_client-Free stream route payload s client h =
      if_both FreeOrSuccess (not (sdk.valid_contents (get_field (codes "contents") payload)))
        (error-Free _ s h)
        (if_both FreeOrSuccess stream (inl refl)
          (whole-Free route.model _ s (λ g e. encodable client _ payload g e) h))

  got-Free :
      (stream : Bool) (route : ModelRoute) (payload : Fields) (s : ChatLogState)
      (got : Text ⊎ Client)
      → s.billable_amount ≡ pos 0
      → FreeOrSuccess (with_client env sdk write_error stream route payload s got)
  got-Free stream route payload s (inl error) h = error-Free _ s h
  got-Free stream route payload s (inr client) h =
      answer_client-Free stream route payload s client h

  handle_with_vertex_ai_sdk-Free :
      (stream : Bool) (route : ModelRoute) (payload : Fields) (clients : Clients Client)
      (s : ChatLogState)
      → s.billable_amount ≡ pos 0
      → FreeOrSuccess
          (handle_with_vertex_ai_sdk env sdk write_error stream route payload clients s).1
  unfolding handle_with_vertex_ai_sdk
  handle_with_vertex_ai_sdk-Free stream route payload clients s h =
      let config = parse_vertex_ai_config env.decode route.provider.extra_config in
      if_both (λ (r : Clients Client × (ChatLogState × Answer)). FreeOrSuccess r.1)
        (is_empty config.project_id) (error-Free _ s h)
        (got-Free stream route payload s
          (get_vertex_ai_client sdk config.project_id config.location clients).1 h)

module _ {Client : Type 0} (env : Services) (sdk : Sdk Client) (up : Upstream)
    (write_error : ℕ → Option Text) (encodable : IsEncodable sdk) where
  pub after_admission-Unbilled :
      (stream : Bool) (router : RouterState) (clients : Clients Client) (options : Options)
      (request : Request) (c : Checked (ModelRoute × Fields))
      → (log_of c).billable_amount ≡ pos 0
      → Unbilled (after_admission env sdk up write_error stream router clients options request c).1
  unfolding after_admission
  after_admission-Unbilled stream router clients options request (refused s f) h =
      handled-Unbilled request router (write_json_error f s) (error-Free f s h)
  after_admission-Unbilled stream router clients options request (panicked s) h = inr (inr h)
  after_admission-Unbilled stream router clients options request (passed s (route, payload)) h =
      let kept = gemini_attempts-Kept env router options route payload s in
      if_both (λ (r : Clients Client × Handled). Unbilled r.1) (is_vertex_ai route)
        (handled-Unbilled request router
          (handle_with_vertex_ai_sdk env sdk write_error stream route payload clients s).1
          (handle_with_vertex_ai_sdk-Free env sdk write_error encodable stream route payload clients
            s h))
        (after_preflight-Unbilled gemini env up write_error request
          (gemini_attempts env router options route payload s) (kept.1 ∙ h))
