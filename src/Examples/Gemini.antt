-- ===== src/Examples/Gemini.antt =====
-- Gemini requests and a Vertex AI provider, at concrete inputs.
use wcs_transfer.Base.{
  ◌≡◌, refl, inl, inr, true, false, none, some, List, [], ◌∷◌, ◌++◌, map, ℤ, pos, Text, codes,
}
use wcs_transfer.RequestLog.{Books, start_log}
use wcs_transfer.Examples.{small_model, services, start, one_wallet}
use wcs_transfer.VertexSdk.{Sdk, Generated, chunk, stream_failed}
use wcs_transfer.VertexStream.{stream_vertex_ai_sdk_response, event, error_json}
use wcs_transfer.VertexStream.Items.{events, IsBilledFor, last_usage}
use wcs_transfer.VertexStream.Whole.{
  stream_vertex_ai_sdk_response-chunks, stream_vertex_ai_sdk_response-failed,
}

abbrev tuned : Text
tuned = codes "tuned:2"

-- A client is its project and its location; every call fails for want of quota.
abbrev pub Client : Type 0
Client = Text × Text

abbrev pub sdk : Sdk Client
sdk = record {
  new_client = λ project_id location. inr (project_id, location);
  valid_contents = λ contents. true;
  generate_content = λ client model payload. inl (codes "Quota exceeded");
  generate_content_stream = λ client model payload. [];
}

IsFor : Client → Text → Text → Type 0
IsFor client project_id location = client ≡ (project_id, location)

makes : (p l : Text) (c : Client) → sdk.new_client p l ≡ inr c → IsFor c p l
unfolding IsFor
makes p l c e = cc

abbrev pub used : ℤ → Generated
used tokens = record {
  usage = some (record {
    prompt_token_count = pos 1;
    candidates_token_count = tokens;
    total_token_count = pos 0;
  });
  json = some (codes "{}");
}

abbrev two_chunks : List Generated
two_chunks = used (pos 2) ∷ used (pos 7) ∷ []

stream_vertex_ai_sdk_response-chunks_example :
    let p =
      stream_vertex_ai_sdk_response services.encode small_model
        (λ i. none)
        (map chunk two_chunks)
        start in
    (p.written ≡ events two_chunks)
    × (p.log.success ≡ true)
    × IsBilledFor services.encode small_model
        (some (record {
          prompt_token_count = pos 1;
          candidates_token_count = pos 7;
          total_token_count = pos 0;
        }))
        start
        p.log
unfolding start_log
stream_vertex_ai_sdk_response-chunks_example =
    stream_vertex_ai_sdk_response-chunks services.encode small_model two_chunks start refl

stream_vertex_ai_sdk_response-failed_example :
    let p =
      stream_vertex_ai_sdk_response services.encode small_model
        (λ i. none)
        (map chunk two_chunks ++ (stream_failed false (codes "reset") ∷ []))
        start in
    (p.written ≡ events two_chunks ++ event (error_json services.encode (codes "reset")))
    × (p.log.success ≡ false)
    × (p.log.error_message ≡ codes "reset")
    × IsBilledFor services.encode small_model (last_usage two_chunks) start p.log
stream_vertex_ai_sdk_response-failed_example =
    stream_vertex_ai_sdk_response-failed services.encode small_model two_chunks (codes "reset") []
      start

abbrev unencodable : Generated
unencodable = record (used (pos 7)) { json = none }

abbrev books : Books
books = record { request_logs = []; wallets = one_wallet }
