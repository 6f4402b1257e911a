-- ===== src/VertexStream.antt =====
-- Streams from Vertex AI (backend/internal/api/openai/gemini_vertexai.go:
-- `streamVertexAISDKResponse`).
pub mod Items
pub mod Whole
use wcs_transfer.Base.{
  ℕ, ◌+◌, Bool, true, false, not, ◌&&◌, Option, none, some, List, [], ◌∷◌, ◌++◌, if◌then◌else◌, pos,
  Text, codes, is_empty,
}
use wcs_transfer.Entity.{Model}
use wcs_transfer.Json.{str, obj, Fields, end, field}
use wcs_transfer.Log.{ChatLogState}
use wcs_transfer.Stream.{max_logged_payload_bytes, preview_chunk}
use wcs_transfer.Respond.{failed_with}
use wcs_transfer.VertexSdk.{StreamItem, chunk, stream_failed, apply_vertex_ai_usage}

-- What a stream has sent so far.
pub record Streaming : Type 0 where
  pub log : ChatLogState
  pub written : Text
  pub wrote_any : Bool
  pub preview : Text
  pub truncated : Bool

-- An event of the stream.
abbrev pub event : Text → Text
event json = codes "data: " ++ (json ++ 10 ∷ 10 ∷ [])

-- `wrappedPayloadJSON` of an error, with the encoder of JSON as an argument.
abbrev pub error_json : (Fields → Option Text) → Text → Text
error_json encode message =
    elim (encode (
      field (codes "error")
        (obj (
          field (codes "message") (str message)
            (field (codes "type") (str (codes "stream_error")) end)))
        end)) [ none ↦ codes "{}" | some json ↦ json ]

module _ (encode : Fields → Option Text) (model : Model) (write_error : ℕ → Option Text) where
  -- `writeSSEError`, whose own error is not looked at.
  abbrev pub write_sse_error : ℕ → Text → Text → Text
  write_sse_error i message written = elim (write_error i) [
    | none ↦ written ++ event (error_json encode message)
    | some error ↦ written
  ]

  -- A chunk that was written.
  abbrev pub sent : Text → Streaming → Streaming
  sent json p =
      let (preview, truncated) =
        preview_chunk max_logged_payload_bytes json (p.preview, p.truncated) in
      record p {
        written = p.written ++ event json;
        wrote_any = true;
        preview = preview;
        truncated = truncated;
      }

  -- The loop over the iterator, with the number of the next write. A chunk that cannot be encoded is
  -- skipped.
  unfoldable pub stream_items : ℕ → List StreamItem → Streaming → Streaming
  stream_items i [] p = p
  stream_items i (stream_failed is_eof message ∷ items) p = if is_eof then p else record p {
    log = failed_with (codes "stream_error") message p.log;
    written = write_sse_error i message p.written;
  }
  stream_items i (chunk g ∷ items) p =
      let p' = record p { log = apply_vertex_ai_usage model g.usage p.log } in
      elim g.json [
        | none ↦ stream_items i items p'
        | some json ↦ elim (write_error i) [
          | some error ↦ record p' { log = failed_with (codes "client_write_error") error p'.log }
          | none ↦ stream_items (i + 1) items (sent json p')
        ]
      ]

  abbrev pub no_content : Text
  no_content = codes "no content returned from upstream"

  -- After the loop. Where nothing was written and no error noted, this is the first write.
  abbrev pub finish : Streaming → Streaming
  finish p =
      if not p.wrote_any && is_empty p.log.error_type
      then record p {
        log = failed_with (codes "empty_response") no_content p.log;
        written = write_sse_error 0 no_content p.written;
      }
      else p

  unfoldable pub stream_vertex_ai_sdk_response : List StreamItem → ChatLogState → Streaming
  unfolding stream_items
  stream_vertex_ai_sdk_response items s = finish (
      stream_items 0 items (record {
        log = record s { http_status = pos 200; success = true };
        written = [];
        wrote_any = false;
        preview = [];
        truncated = false;
      }))
