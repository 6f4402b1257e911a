-- ===== src/Respond.antt =====
-- The answer to a client, whole or as a stream, and what the log says of it
-- (backend/internal/api/openai/handler.go, anthropic.go and gemini.go).
use wcs_transfer.Base.{
  ℕ, Bool, true, false, not, ◌&&◌, ◌||◌, Option, none, some, [], ◌∷◌, ◌==◌, if◌then◌else◌, ℤ, pos,
  ltb_ℤ, leb_ℤ, Text, codes, text_eq, is_empty, trim_space, to_lower,
}
use wcs_transfer.Entity.{Model}
use wcs_transfer.Log.{
  ChatLogState, Decoder, apply_usage, apply_anthropic_usage, apply_gemini_usage,
  extract_error_message,
}
use wcs_transfer.Proxy.{
  Endpoint, chat_completions, embeddings, messages, Response, read_all, response_error_type,
}
use wcs_transfer.Stream.{stream_upstream_response}
use wcs_transfer.Checks.{Failure}

-- What the client gets: a status and the bytes of the body, or the JSON of a failure.
pub record Answer : Type 0 where
  pub status : ℤ
  pub written : Text
  pub failure : Option Failure

unfoldable pub has_prefix : Text → Text → Bool
has_prefix [] s = true
has_prefix (a ∷ p) [] = false
has_prefix (a ∷ p) (b ∷ s) = (a == b) && has_prefix p s

-- `strings.Contains`
unfoldable pub contains : Text → Text → Bool
unfolding has_prefix
contains needle [] = has_prefix needle []
contains needle (a ∷ s) = has_prefix needle (a ∷ s) || contains needle s

unfoldable pub is_streaming_response : Text → Bool
unfolding contains trim_space to_lower
is_streaming_response content_type =
    contains (codes "text/event-stream") (to_lower (trim_space content_type))

-- `response.StatusCode >= 200 && response.StatusCode < 300`
abbrev pub is_success : ℤ → Bool
is_success status = leb_ℤ (pos 200) status && ltb_ℤ status (pos 300)

abbrev pub with_failure : Failure → ChatLogState → ChatLogState
with_failure f s = record s {
  http_status = f.status;
  error_type = f.error_type;
  error_message = f.message;
}

-- `writeJSONError`
unfoldable pub write_json_error : Failure → ChatLogState → ChatLogState × Answer
write_json_error f s =
    (with_failure f s, record { status = f.status; written = []; failure = some f })

abbrev pub failed_with : Text → Text → ChatLogState → ChatLogState
failed_with error_type message s = record s {
  success = false;
  error_type = error_type;
  error_message = message;
}

-- Whose responses are returned: those of the three endpoints, and those of a Gemini provider.
pub data Responder : Type 0 where
  proxied : Endpoint → Responder
  gemini : Responder

-- `applyUsage`, `applyAnthropicUsage` or `applyGeminiUsage`
abbrev pub usage_reader : Responder → Decoder → Model → Text → ChatLogState → ChatLogState
usage_reader (proxied chat_completions) = apply_usage
usage_reader (proxied embeddings) = apply_usage
usage_reader (proxied messages) = apply_anthropic_usage
usage_reader gemini = apply_gemini_usage

-- The payload that ends a stream of chat completions or of Gemini.
abbrev pub ends_stream : Responder → Text → Bool
ends_stream (proxied chat_completions) payload = text_eq payload (codes "[DONE]")
ends_stream (proxied embeddings) payload = false
ends_stream (proxied messages) payload = false
ends_stream gemini payload = text_eq payload (codes "[DONE]")

abbrev pub streams : Responder → Bool
streams (proxied chat_completions) = true
streams (proxied embeddings) = false
streams (proxied messages) = true
streams gemini = true

-- The success that is logged for a body that cannot be read: only chat completions take back what
-- the status said.
abbrev pub success_unread : Responder → Bool → Bool
success_unread (proxied chat_completions) success = false
success_unread (proxied embeddings) success = success
success_unread (proxied messages) success = success
success_unread gemini success = success

abbrev pub error_type_of : Responder → Decoder → Text → Text
error_type_of (proxied endpoint) decode body = response_error_type endpoint decode body
error_type_of gemini decode body = codes "upstream_response_error"

module _ (responder : Responder) (decode : Decoder) (model : Model) where
  abbrev pub apply_response_usage : Text → ChatLogState → ChatLogState
  apply_response_usage = usage_reader responder decode model

  -- The writer's errors, by the number of the write.
  unfoldable pub send_stream : (ℕ → Option Text) → Response → ChatLogState → ChatLogState × Answer
  send_stream write_error r s =
      let p =
        stream_upstream_response (ends_stream responder) apply_response_usage write_error
          r.body.chunks r.body.read_error s in
      (
        elim p.stream_error [
          | none ↦ p.state
          | some error ↦ failed_with (codes "stream_proxy_error") error p.state
        ],
        record { status = r.status; written = p.written; failure = none },
      )

  -- A body that cannot be read.
  unfoldable pub read_failed : Text → ChatLogState → ChatLogState × Answer
  read_failed error s =
      let f : Failure = record {
        status = pos 502;
        error_type = codes "upstream_read_error";
        message = error;
      } in
      write_json_error f (record s { success = success_unread responder s.success })

  -- The error of a response that is no success.
  abbrev pub note_response_error : Text → ChatLogState → ChatLogState
  note_response_error body s =
      if not s.success && is_empty s.error_type
      then record s {
        error_type = error_type_of responder decode body;
        error_message = extract_error_message decode body;
      }
      else s

  unfoldable pub send_body :
      (ℕ → Option Text) → Response → Text → ChatLogState → ChatLogState × Answer
  send_body write_error r body s =
      let s' = apply_response_usage body (note_response_error body s) in
      elim (write_error 0) [
        | none ↦ (s', record { status = r.status; written = body; failure = none })
        | some error ↦ (
          failed_with (codes "client_write_error") error s',
          record { status = r.status; written = []; failure = none },
        )
      ]

  -- The end of the upstream loop with a response that is returned.
  unfoldable pub send_response : (ℕ → Option Text) → Response → ChatLogState → ChatLogState × Answer
  send_response write_error r s =
      let s₁ = record s { http_status = r.status; success = is_success r.status } in
      if streams responder && is_streaming_response r.content_type
      then send_stream write_error r s₁
      else (elim r.body.read_error [
        | some error ↦ read_failed error s₁
        | none ↦ send_body write_error r (read_all r.body) s₁
      ])
