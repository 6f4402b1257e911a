-- ===== src/VertexAi.antt =====
-- Requests to Vertex AI (backend/internal/api/openai/gemini_vertexai.go:
-- `handleWithVertexAISDK`, `nonStreamVertexAISDKResponse`).
use wcs_transfer.Base.{
  ℕ, ◌⊎◌, inl, inr, Bool, true, not, Option, none, some, ◌++◌, if◌then◌else◌, ℤ, pos, Text, codes,
  is_empty, trim_space,
}
use wcs_transfer.Entity.{Model, ModelRoute}
use wcs_transfer.Json.{Fields, get_field}
use wcs_transfer.Log.{ChatLogState}
use wcs_transfer.Checks.{Failure, Services}
use wcs_transfer.Respond.{Answer, write_json_error}
use wcs_transfer.VertexSdk.{
  Generated, Sdk, Clients, get_vertex_ai_client, parse_vertex_ai_config, apply_vertex_ai_usage,
  vertex_ai_error_code,
}
use wcs_transfer.VertexStream.{stream_vertex_ai_sdk_response}

abbrev pub failure : ℤ → Text → Text → Failure
failure status error_type message = record {
  status = status;
  error_type = error_type;
  message = message;
}

-- `writeVertexAIError` is `writeJSONError`: the id of the client key is in the log already.
abbrev pub write_vertex_ai_error : Failure → ChatLogState → ChatLogState × Answer
write_vertex_ai_error = write_json_error

-- A response with its usage: success is noted before it is known that it can be encoded.
unfoldable pub send_generated : Model → Generated → ChatLogState → ChatLogState × Answer
unfolding apply_vertex_ai_usage
send_generated model g s =
    let s' = record (apply_vertex_ai_usage model g.usage s) {
      http_status = pos 200;
      success = true;
    } in
    elim g.json [
      | none ↦
          write_vertex_ai_error
            (failure (pos 500) (codes "internal_error") (codes "failed to encode response")) s'
      | some body ↦ (s', record { status = pos 200; written = body; failure = none })
    ]

unfoldable pub non_stream_vertex_ai_sdk_response :
    Model → Text ⊎ Generated → ChatLogState → ChatLogState × Answer
unfolding send_generated vertex_ai_error_code
non_stream_vertex_ai_sdk_response model (inl error) s =
    write_vertex_ai_error (failure (vertex_ai_error_code error) (codes "upstream_error") error) s
non_stream_vertex_ai_sdk_response model (inr g) s = send_generated model g s

-- The whole call, with the clients that are kept between requests.
module _ {Client : Type 0} (env : Services) (sdk : Sdk Client) (write_error : ℕ → Option Text) where
  abbrev pub answer_client :
      Bool → ModelRoute → Fields → ChatLogState → Client → ChatLogState × Answer
  answer_client stream route payload s client =
      let upstream = trim_space route.model.upstream_model in
      let model_name =
        if is_empty upstream then codes "gemini-2.5-pro-preview-05-06" else upstream in
      if not (sdk.valid_contents (get_field (codes "contents") payload))
      then write_vertex_ai_error
          (failure (pos 400) (codes "invalid_request") (codes "invalid contents format")) s
      else (if stream
          then (let p =
                stream_vertex_ai_sdk_response env.encode route.model write_error
                  (sdk.generate_content_stream client model_name payload) s in
              (p.log, record { status = pos 200; written = p.written; failure = none }))
          else non_stream_vertex_ai_sdk_response route.model
              (sdk.generate_content client model_name payload) s)

  abbrev pub with_client :
      Bool → ModelRoute → Fields → ChatLogState → Text ⊎ Client → ChatLogState × Answer
  with_client stream route payload s (inl error) =
      write_vertex_ai_error
        (failure (pos 500) (codes "auth_error")
          (codes "failed to initialize Vertex AI client: " ++ error))
        s
  with_client stream route payload s (inr client) = answer_client stream route payload s client

  unfoldable pub handle_with_vertex_ai_sdk :
      Bool
      → ModelRoute
      → Fields
      → Clients Client
      → ChatLogState
      → Clients Client × (ChatLogState × Answer)
  unfolding get_vertex_ai_client
  handle_with_vertex_ai_sdk stream route payload clients s =
      let config = parse_vertex_ai_config env.decode route.provider.extra_config in
      if is_empty config.project_id
      then (
        clients,
        write_vertex_ai_error
            (failure (pos 400) (codes "invalid_config")
              (codes "provider extra_config missing project_id for vertexai provider"))
            s,
      )
      else (let (clients', got) =
            get_vertex_ai_client sdk config.project_id config.location clients in
          (clients', with_client stream route payload s got))
