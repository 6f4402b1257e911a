-- ===== src/Gemini/Handler/Charges.antt =====
-- Whom a Gemini request is charged to (backend/internal/api/openai/gemini.go and
-- gemini_vertexai.go, with `writeRequestLog` of handler.go).
use wcs_transfer.Base.{
  ℕ, ◌+◌, ◌≡◌, ◌∙◌, ◌⊎◌, inl, inr, Bool, true, false, not, Option, Option-cases, List, [], ◌∷◌,
  arith, ℤ, pos, Text, codes, is_empty,
}
use wcs_transfer.Entity.{Model, ModelRoute}
use wcs_transfer.Json.{Fields, get_field}
use wcs_transfer.Log.{ChatLogState}
use wcs_transfer.Wallet.{Runs}
use wcs_transfer.Routing.{RouterState}
use wcs_transfer.Proxy.{Upstream}
use wcs_transfer.Checks.{Checked, refused, panicked, passed, Options, Request, Services}
use wcs_transfer.Preflight.Kept.{log_of}
use wcs_transfer.Respond.{Answer, gemini, write_json_error}
use wcs_transfer.RequestLog.{Books, write_request_log}
use wcs_transfer.Serve.{Handled}
use wcs_transfer.Serve.Charges.{IsOf, Settles, Unbilled-Settles, after_preflight-IsOf}
use wcs_transfer.VertexSdk.{
  Sdk, Clients, Generated, StreamItem, chunk, stream_failed, apply_vertex_ai_usage,
  parse_vertex_ai_config, get_vertex_ai_client,
}
use wcs_transfer.VertexStream.{Streaming, sent, stream_items, stream_vertex_ai_sdk_response}
use wcs_transfer.VertexAi.{
  send_generated, non_stream_vertex_ai_sdk_response, answer_client, with_client,
  handle_with_vertex_ai_sdk,
}
use wcs_transfer.Gemini.Admission.{is_vertex_ai, admit_gemini, gemini_attempts}
use wcs_transfer.Gemini.Admission.Kept.{admit_gemini-Kept, gemini_attempts-Kept}
use wcs_transfer.Gemini.Handler.{after_admission, handle_gemini_generate_content}
use wcs_transfer.Gemini.Handler.Unbilled.{IsEncodable, if_both, after_admission-Unbilled}

module _ (key_id : ℤ) (encode : Fields → Option Text) (model : Model)
    (write_error : ℕ → Option Text) where
  -- Whatever the stream gives, its log stays that of the key.
  stream_items-IsOf :
      (i : ℕ) (items : List StreamItem) (p : Streaming)
      → IsOf key_id p.log
      → IsOf key_id (stream_items encode model write_error i items p).log
  unfolding stream_items apply_vertex_ai_usage
  stream_items-IsOf i [] p h = h
  stream_items-IsOf i (stream_failed is_eof message ∷ items) p h = ground (arith, h)
  stream_items-IsOf i (chunk g ∷ items) p h =
      let p' = record p { log = apply_vertex_ai_usage model g.usage p.log } in
      let same : IsOf key_id p'.log = ground (arith, h) in
      elim (Option-cases g.json) [
        | inl e ↦ rw (e, stream_items) (stream_items-IsOf i items p' same)
        | inr (json, e) ↦ elim (Option-cases (write_error i)) [
          | inl w ↦
              rw (e, w, stream_items)
                (stream_items-IsOf (i + 1) items (sent encode model write_error json p') same)
          | inr (error, w) ↦ rw (e, w, stream_items) same
        ]
      ]

  stream-IsOf :
      (items : List StreamItem) (s : ChatLogState)
      → IsOf key_id s
      → IsOf key_id (stream_vertex_ai_sdk_response encode model write_error items s).log
  unfolding stream_vertex_ai_sdk_response
  stream-IsOf items s h =
      let kept =
        stream_items-IsOf 0 items
          (record {
            log = record s { http_status = pos 200; success = true };
            written = [];
            wrote_any = false;
            preview = [];
            truncated = false;
          })
          h in
      ground (arith, kept)

whole-IsOf :
    (key_id : ℤ) (model : Model) (result : Text ⊎ Generated) (s : ChatLogState)
    → IsOf key_id s
    → IsOf key_id (non_stream_vertex_ai_sdk_response model result s).0
unfolding non_stream_vertex_ai_sdk_response send_generated apply_vertex_ai_usage write_json_error
whole-IsOf key_id model (inl error) s h = h
whole-IsOf key_id model (inr g) s h = ground (arith, h)

module _ (key_id : ℤ) {Client : Type 0} (env : Services) (sdk : Sdk Client)
    (write_error : ℕ → Option Text) where
  answer_client-IsOf :
      (stream : Bool) (route : ModelRoute) (payload : Fields) (s : ChatLogState) (client : Client)
      → IsOf key_id s
      → IsOf key_id (answer_client env sdk write_error stream route payload s client).0
  unfolding write_json_error
  answer_client-IsOf stream route payload s client h =
      let of_key = λ (r : ChatLogState × Answer). IsOf key_id r.0 in
      if_both of_key (not (sdk.valid_contents (get_field (codes "contents") payload))) h (
        if_both of_key stream (stream-IsOf key_id env.encode route.model write_error _ s h)
          (whole-IsOf key_id route.model _ s h))

  with_client-IsOf :
      (stream : Bool) (route : ModelRoute) (payload : Fields) (s : ChatLogState)
      (got : Text ⊎ Client)
      → IsOf key_id s
      → IsOf key_id (with_client env sdk write_error stream route payload s got).0
  unfolding write_json_error
  with_client-IsOf stream route payload s (inl error) h = h
  with_client-IsOf stream route payload s (inr client) h =
      answer_client-IsOf stream route payload s client h

  vertex-IsOf :
      (stream : Bool) (route : ModelRoute) (payload : Fields) (clients : Clients Client)
      (s : ChatLogState)
      → IsOf key_id s
      → IsOf key_id
          (handle_with_vertex_ai_sdk env sdk write_error stream route payload clients s).1.0
  unfolding handle_with_vertex_ai_sdk write_json_error
  vertex-IsOf stream route payload clients s h =
      let config = parse_vertex_ai_config env.decode route.provider.extra_config in
      if_both (λ (r : Clients Client × (ChatLogState × Answer)). IsOf key_id r.1.0)
        (is_empty config.project_id) h
        (with_client-IsOf stream route payload s
          (get_vertex_ai_client sdk config.project_id config.location clients).1 h)

module _ {Client : Type 0} (env : Services) (sdk : Sdk Client) (up : Upstream)
    (write_error : ℕ → Option Text) where
  after_admission-IsOf :
      (key_id : ℤ) (stream : Bool) (router : RouterState) (clients : Clients Client)
      (options : Options) (request : Request) (c : Checked (ModelRoute × Fields))
      → IsOf key_id (log_of c)
      → IsOf key_id
          (after_admission env sdk up write_error stream router clients options request c).1.log
  unfolding after_admission write_json_error
  after_admission-IsOf key_id stream router clients options request (refused s f) h = h
  after_admission-IsOf key_id stream router clients options request (panicked s) h = h
  after_admission-IsOf key_id stream router clients options request (passed s (route, payload)) h =
      let kept = gemini_attempts-Kept env router options route payload s in
      if_both (λ (r : Clients Client × Handled). IsOf key_id r.1.log) (is_vertex_ai route)
        (vertex-IsOf key_id env sdk write_error stream route payload clients s h)
        (after_preflight-IsOf gemini env up write_error key_id request
          (gemini_attempts env router options route payload s) (kept.2 ∙ h))

  -- Whatever upstream does and whatever statements of the database fail, a Gemini request that
  -- starts with nothing billed leaves all wallets and the ledger as they were; or it is answered
  -- with a status from 200 to 299, its row in the log got an id, and one entry is posted: to the
  -- wallet of the user who owns the client key that the request started with, at the balance that
  -- was there, for the amount that the log bills, kept to the decimals of the columns. Whole responses
  -- of Vertex AI have to be encodable.
  pub handle_gemini_generate_content-Settles :
      IsEncodable sdk
      → (stream : Bool) (router : RouterState) (clients : Clients Client) (options : Options)
        (request : Request) (s : ChatLogState) (created : Option ℤ) (runs : Runs) (measured : ℤ)
        (books : Books)
      → s.billable_amount ≡ pos 0
      → let h =
          (handle_gemini_generate_content env sdk up write_error stream router clients options
            request s).1 in
        Settles s.client_api_key_id created h books.wallets
          (write_request_log created runs measured h.log books).wallets
  unfolding handle_gemini_generate_content
  handle_gemini_generate_content-Settles encodable stream router clients options request s created
        runs measured books start =
      let admitted = admit_gemini env options request s in
      let kept = admit_gemini-Kept env options request s in
      Unbilled-Settles s.client_api_key_id created runs measured
        (after_admission env sdk up write_error stream router clients options request admitted).1
        books
        (after_admission-Unbilled env sdk up write_error encodable stream router clients options
          request admitted (kept.1 ∙ start))
        (after_admission-IsOf s.client_api_key_id stream router clients options request admitted
          kept.2)
