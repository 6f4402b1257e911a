-- ===== src/Serve/Unbilled.antt =====
-- When a request is not billed (backend/internal/api/openai/handler.go and anthropic.go).
use wcs_transfer.Base.{
  ℕ, ◌≡◌, refl, ◌∙◌, ◌⊎◌, inl, inr, Bool, true, false, ◌&&◌, Option, none, some, arith,
  if◌then◌else◌, Bool-cases, ℤ, pos, Text,
}
use wcs_transfer.Entity.{Model}
use wcs_transfer.Log.{
  ChatLogState, Decoder, apply_usage, apply_anthropic_usage, apply_gemini_usage,
  update_anthropic_usage,
}
use wcs_transfer.Wallet.{Runs}
use wcs_transfer.Routing.{RouterState}
use wcs_transfer.Proxy.{
  Response, Upstream, Trace, LoopEnd, request_not_built, upstream_error, responded, exhausted,
  read_all,
}
use wcs_transfer.Stream.Keeps.{stream_upstream_response-keeps}
use wcs_transfer.Checks.{Checked, refused, panicked, passed, Request, Services, Prepared}
use wcs_transfer.Preflight.Kept.{log_of}
use wcs_transfer.Respond.{
  Answer, is_streaming_response, is_success, write_json_error, apply_response_usage, Responder,
  ends_stream, streams, send_stream, read_failed, note_response_error, send_body, send_response,
}
use wcs_transfer.Serve.{
  with_counts, after_loop, cleared, Handled, handled, with_loop, forward, after_preflight,
}
use wcs_transfer.RequestLog.{Books, write_request_log}

-- A log that leads to no debit.
abbrev pub IsFree : ChatLogState → Type 0
IsFree s = (s.success ≡ false) ⊎ (s.billable_amount ≡ pos 0)

-- A log with its answer: no debit, unless the answer says that the request succeeded.
abbrev pub FreeOrSuccess : ChatLogState × Answer → Type 0
FreeOrSuccess (s, answer) = (is_success answer.status ≡ true) ⊎ IsFree s

module _ (responder : Responder) (decode : Decoder) (model : Model) where
  apply_response_usage-success :
      (body : Text) (s : ChatLogState)
      → s.success ≡ false
      → (apply_response_usage responder decode model body s).success ≡ false
  unfolding apply_usage apply_anthropic_usage update_anthropic_usage apply_gemini_usage
  apply_response_usage-success body s h = ground (arith, h)

  send_stream-Free :
      (write_error : ℕ → Option Text) (r : Response) (s : ChatLogState)
      → s.success ≡ is_success r.status
      → FreeOrSuccess (send_stream responder decode model write_error r s)
  unfolding send_stream
  send_stream-Free write_error r s h = elim (Bool-cases (is_success r.status)) [
    | inl won ↦ inl won
    | inr lost ↦
        (let kept =
            stream_upstream_response-keeps (λ (s : ChatLogState). s.success ≡ false)
              (ends_stream responder) (apply_response_usage responder decode model)
              apply_response_usage-success write_error r.body.chunks r.body.read_error s
              (h ∙ lost) in
          inr (inl (ground (arith, kept))))
  ]

  send_body-status :
      (write_error : ℕ → Option Text) (r : Response) (body : Text) (s : ChatLogState)
      → (send_body responder decode model write_error r body s).1.status ≡ r.status
  unfolding send_body
  send_body-status write_error r body s = ground arith

  send_body-success :
      (write_error : ℕ → Option Text) (r : Response) (body : Text) (s : ChatLogState)
      → s.success ≡ false
      → (send_body responder decode model write_error r body s).0.success ≡ false
  unfolding send_body
  send_body-success write_error r body s h =
      let marked = note_response_error responder decode model body s in
      let still : marked.success ≡ false = ground (arith, h) in
      ground (arith, apply_response_usage-success body marked still)

  send_body-Free :
      (write_error : ℕ → Option Text) (r : Response) (body : Text) (s : ChatLogState)
      → s.success ≡ is_success r.status
      → FreeOrSuccess (send_body responder decode model write_error r body s)
  send_body-Free write_error r body s h = elim (Bool-cases (is_success r.status)) [
    | inl won ↦ inl (rw (send_body-status write_error r body s) won)
    | inr lost ↦ inr (inl (send_body-success write_error r body s (h ∙ lost)))
  ]

  read_failed-Free :
      (error : Text) (s : ChatLogState)
      → s.billable_amount ≡ pos 0
      → IsFree (read_failed responder decode model error s).0
  unfolding read_failed write_json_error
  read_failed-Free error s h = inr (ground (arith, h))

  send_response-Free :
      (write_error : ℕ → Option Text) (r : Response) (s : ChatLogState)
      → s.billable_amount ≡ pos 0
      → FreeOrSuccess (send_response responder decode model write_error r s)
  unfolding send_response
  send_response-Free write_error r s h =
      let s₁ = record s { http_status = r.status; success = is_success r.status } in
      go (streams responder && is_streaming_response r.content_type) r.body.read_error
    where
      go :
          (streamed : Bool) (read_error : Option Text)
          → FreeOrSuccess (
              if streamed
              then send_stream responder decode model write_error r
                  (record s { http_status = r.status; success = is_success r.status })
              else elim read_error [
                | some error ↦
                    read_failed responder decode model error
                      (record s { http_status = r.status; success = is_success r.status })
                | none ↦
                    send_body responder decode model write_error r
                      (read_all r.body)
                      (record s { http_status = r.status; success = is_success r.status })
              ])
      go true read_error =
          send_stream-Free write_error r
            (record s { http_status = r.status; success = is_success r.status }) refl
      go false (some error) = inr (
          read_failed-Free error
            (record s { http_status = r.status; success = is_success r.status }) h)
      go false none =
          send_body-Free write_error r (read_all r.body)
            (record s { http_status = r.status; success = is_success r.status }) refl

  after_loop-Free :
      (write_error : ℕ → Option Text) (t : Trace) (ended : LoopEnd) (s : ChatLogState)
      → s.billable_amount ≡ pos 0
      → FreeOrSuccess (after_loop responder decode model write_error t ended s)
  unfolding after_loop write_json_error
  after_loop-Free write_error t request_not_built s h = inr (inr h)
  after_loop-Free write_error t (upstream_error error) s h = inr (inr h)
  after_loop-Free write_error t (responded a r) s h =
      send_response-Free write_error r (with_counts t s) h
  after_loop-Free write_error t exhausted s h = inr (inr h)

-- A handled request leads to no debit, unless it was answered with success.
abbrev pub Unbilled : Handled → Type 0
Unbilled h = ((a : Answer) × (h.answer ≡ some a) × (is_success a.status ≡ true)) ⊎ IsFree h.log

pub handled-Unbilled :
    (request : Request) (router : RouterState) (r : ChatLogState × Answer)
    → FreeOrSuccess r
    → Unbilled (handled request router r)
handled-Unbilled request router (s, answer) (inl won) = inl (answer, refl, won)
handled-Unbilled request router (s, answer) (inr free) = inr free

pub IsFree-no_debit :
    (created : Option ℤ) (runs : Runs) (measured : ℤ) (s : ChatLogState) (books : Books)
    → IsFree s
    → (write_request_log created runs measured s books).wallets ≡ books.wallets
unfolding write_request_log
IsFree-no_debit created runs measured s books (inl lost) = ground (arith, lost)
IsFree-no_debit created runs measured s books (inr free) = ground (arith, free)

module _ (responder : Responder) (env : Services) (up : Upstream)
    (write_error : ℕ → Option Text) where
  pub with_loop-Unbilled :
      (request : Request) (router : RouterState) (model : Model) (s : ChatLogState)
      (r : Trace × LoopEnd)
      → s.billable_amount ≡ pos 0
      → Unbilled (with_loop responder env up write_error request router model s r)
  with_loop-Unbilled request router model s (t, ended) h =
      let s' = record s { provider_key_id = t.provider_key_id } in
      handled-Unbilled request (record router { key_health = (cleared ended t).key_health })
        (after_loop responder env.decode model write_error t ended s')
        (after_loop-Free responder env.decode model write_error t ended s' h)

  pub after_preflight-Unbilled :
      (request : Request) (r : RouterState × Checked Prepared)
      → (log_of r.1).billable_amount ≡ pos 0
      → Unbilled (after_preflight responder env up write_error request r)
  unfolding after_preflight write_json_error forward
  after_preflight-Unbilled request (router, refused s f) h =
      handled-Unbilled request router (write_json_error f s) (inr (inr h))
  after_preflight-Unbilled request (router, panicked s) h = inr (inr h)
  after_preflight-Unbilled request (router, passed s p) h =
      with_loop-Unbilled request router p.route.model s _ h
