-- ===== src/VertexStream/Whole.antt =====
-- What a client gets of a stream from Vertex AI, and what is billed for it
-- (backend/internal/api/openai/gemini_vertexai.go: `streamVertexAISDKResponse`).
use wcs_transfer.Base.{
  ◌≡◌, refl, ap, true, false, Option, none, List, ◌∷◌, ◌++◌, map, arith, if◌then◌else◌, Text,
  is_empty, codes,
}
use wcs_transfer.Entity.{Model}
use wcs_transfer.Json.{Fields}
use wcs_transfer.Log.{ChatLogState}
use wcs_transfer.VertexSdk.{Generated, StreamItem, chunk, stream_failed}
use wcs_transfer.VertexStream.{event, error_json, sent, stream_vertex_ai_sdk_response}
use wcs_transfer.VertexStream.Items.{
  events, has_event, last_usage, IsBilledFor, after-begun, no_event, stream-chunks, stream-failed,
}

module _ (encode : Fields → Option Text) (model : Model) where
  -- A stream of chunks that ends without an error, to a client that takes every write: the client
  -- gets the chunks that can be encoded as events, in order, or one event with an error if there
  -- are none. The request is a success exactly in the first case. The tokens and amounts are those
  -- of the last usage that a chunk reports.
  pub stream_vertex_ai_sdk_response-chunks :
      (gs : List Generated) (s : ChatLogState)
      → is_empty s.error_type ≡ true
      → let p = stream_vertex_ai_sdk_response encode model (λ i. none) (map chunk gs) s in
        (p.written ≡ (
          if has_event gs
          then events gs
          else event (error_json encode (codes "no content returned from upstream"))))
        × (p.log.success ≡ has_event gs)
        × IsBilledFor encode model (last_usage gs) s p.log
  stream_vertex_ai_sdk_response-chunks gs s h =
      let facts = after-begun encode model gs s in
      rw (stream-chunks encode model gs s) (ground (arith, h, facts, no_event encode model gs))

  -- A stream that breaks after some chunks, to a client that takes every write: the client gets
  -- those chunks and then the error, each as an event. The request is no success, and the log has
  -- the error. What follows the error is not looked at.
  pub stream_vertex_ai_sdk_response-failed :
      (gs : List Generated) (message : Text) (rest : List StreamItem) (s : ChatLogState)
      → let p =
          stream_vertex_ai_sdk_response encode model
            (λ i. none)
            (map chunk gs ++ (stream_failed false message ∷ rest))
            s in
        (p.written ≡ events gs ++ event (error_json encode message))
        × (p.log.success ≡ false)
        × (p.log.error_message ≡ message)
        × IsBilledFor encode model (last_usage gs) s p.log
  stream_vertex_ai_sdk_response-failed gs message rest s =
      let (sent, any, won, kept, billed) = after-begun encode model gs s in
      rw (stream-failed encode model gs message rest s)
        (ap (λ t. t ++ event (error_json encode message)) sent, refl, refl, billed)
