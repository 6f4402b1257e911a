-- ===== src/Serve/Charges.antt =====
-- Whom a request is charged to (backend/internal/api/openai/handler.go and anthropic.go, with
-- `writeRequestLog`; backend/internal/repository/postgres/store.go: `DeductUserWalletUsage`).
use wcs_transfer.Base.{
  ℕ, ◌≡◌, refl, ◌∙◌, ◌⊎◌, inl, inr, true, ◌&&◌, Option, none, some, arith, Bool-cases, ℤ, pos,
  is_positive, Text,
}
use wcs_transfer.Entity.{Money, Model}
use wcs_transfer.Log.{
  ChatLogState, Decoder, apply_usage, apply_anthropic_usage, apply_gemini_usage,
  update_anthropic_usage,
}
use wcs_transfer.Wallet.{Wallets, Runs, posted, usage_entry, owner_wallet}
use wcs_transfer.Wallet.Debits.{deduct-Posts}
use wcs_transfer.Routing.{RouterState}
use wcs_transfer.Proxy.{
  Endpoint, Response, Upstream, Trace, LoopEnd, request_not_built, upstream_error, responded,
  exhausted, read_all,
}
use wcs_transfer.Stream.Keeps.{stream_upstream_response-keeps}
use wcs_transfer.Checks.{Checked, refused, panicked, passed, Options, Request, Services, Prepared}
use wcs_transfer.Preflight.{preflight}
use wcs_transfer.Preflight.Kept.{log_of, preflight-Kept}
use wcs_transfer.Respond.{
  Answer, is_success, write_json_error, apply_response_usage, Responder, proxied, ends_stream,
  send_stream, read_failed, note_response_error, send_body, send_response,
}
use wcs_transfer.Serve.{Handled, with_counts, after_loop, forward, after_preflight, serve}
use wcs_transfer.Serve.Unbilled.{Unbilled, after_preflight-Unbilled, IsFree-no_debit}
use wcs_transfer.RequestLog.{Books, debit_of, write_request_log}

-- The log of a request of the client key.
abbrev pub IsOf : ℤ → ChatLogState → Type 0
IsOf key_id s = s.client_api_key_id ≡ key_id

module _ (key_id : ℤ) (responder : Responder) (decode : Decoder) (model : Model) where
  usage-IsOf :
      (body : Text) (s : ChatLogState)
      → IsOf key_id s
      → IsOf key_id (apply_response_usage responder decode model body s)
  unfolding apply_usage apply_anthropic_usage update_anthropic_usage apply_gemini_usage
  usage-IsOf body s h = ground (arith, h)

  send_stream-IsOf :
      (write_error : ℕ → Option Text) (r : Response) (s : ChatLogState)
      → IsOf key_id s
      → IsOf key_id (send_stream responder decode model write_error r s).0
  unfolding send_stream
  send_stream-IsOf write_error r s h =
      let kept =
        stream_upstream_response-keeps (IsOf key_id) (ends_stream responder)
          (apply_response_usage responder decode model) usage-IsOf write_error r.body.chunks
          r.body.read_error s h in
      ground (arith, kept)

  send_body-IsOf :
      (write_error : ℕ → Option Text) (r : Response) (body : Text) (s : ChatLogState)
      → IsOf key_id s
      → IsOf key_id (send_body responder decode model write_error r body s).0
  unfolding send_body
  send_body-IsOf write_error r body s h =
      let noted = note_response_error responder decode model body s in
      let same : IsOf key_id noted = ground (arith, h) in ground (arith, usage-IsOf body noted same)

  send_response-IsOf :
      (write_error : ℕ → Option Text) (r : Response) (s : ChatLogState)
      → IsOf key_id s
      → IsOf key_id (send_response responder decode model write_error r s).0
  unfolding send_response read_failed write_json_error
  send_response-IsOf write_error r s h =
      let s₁ = record s { http_status = r.status; success = is_success r.status } in
      ground (
        arith,
        h,
        send_stream-IsOf write_error r s₁ h,
        send_body-IsOf write_error r (read_all r.body) s₁ h,
      )

  after_loop-IsOf :
      (write_error : ℕ → Option Text) (t : Trace) (ended : LoopEnd) (s : ChatLogState)
      → IsOf key_id s
      → IsOf key_id (after_loop responder decode model write_error t ended s).0
  unfolding after_loop write_json_error
  after_loop-IsOf write_error t request_not_built s h = h
  after_loop-IsOf write_error t (upstream_error error) s h = h
  after_loop-IsOf write_error t (responded a r) s h =
      send_response-IsOf write_error r (with_counts t s) h
  after_loop-IsOf write_error t exhausted s h = h

-- The log's row is written with the id, and one entry is posted to the wallet of the key's owner,
-- for what the log bills.
abbrev pub Charges : Option ℤ → ChatLogState → Wallets → Wallets → Type 0
Charges created s w w' =
    (request_log_id : ℤ) × (user_id : ℤ) × (before : Money) × (created ≡ some request_log_id)
    × (owner_wallet w s.client_api_key_id ≡ some (user_id, before))
    × (w' ≡ posted w (usage_entry user_id before (debit_of request_log_id s)))

-- What writing a log does to the wallets.
log-Charges :
    (created : Option ℤ) (runs : Runs) (measured : ℤ) (s : ChatLogState) (books : Books)
    → ((write_request_log created runs measured s books).wallets ≡ books.wallets)
      ⊎ Charges created s books.wallets (write_request_log created runs measured s books).wallets
unfolding write_request_log
log-Charges none runs measured s books = inl refl
log-Charges (some id) runs measured s books =
    elim (Bool-cases
      (s.success && is_positive s.client_api_key_id && is_positive s.billable_amount)) [
        | inr free ↦ inl (ground (arith, free))
        | inl billed ↦
            elim (deduct-Posts runs books.wallets (debit_of id s) (ground (arith, billed))) [
              | inl kept ↦ inl (ground (arith, billed, kept))
              | inr (e, (user_id, before, owned, is_entry, _), posts) ↦
                  inr (id, user_id, before, refl, owned, ground (arith, billed, is_entry, posts))
            ]
      ]

pub after_preflight-IsOf :
    (responder : Responder) (env : Services) (up : Upstream) (write_error : ℕ → Option Text)
    (key_id : ℤ) (request : Request) (r : RouterState × Checked Prepared)
    → IsOf key_id (log_of r.1)
    → IsOf key_id (after_preflight responder env up write_error request r).log
unfolding after_preflight write_json_error forward
after_preflight-IsOf responder env up write_error key_id request (router, refused s f) h = h
after_preflight-IsOf responder env up write_error key_id request (router, panicked s) h = h
after_preflight-IsOf responder env up write_error key_id request (router, passed s p) h =
    after_loop-IsOf key_id responder env.decode p.route.model write_error _ _ _ h

-- The wallets stay as they are; or the request of the key was answered with success, and is charged.
abbrev pub Settles : ℤ → Option ℤ → Handled → Wallets → Wallets → Type 0
Settles key_id created h w w' =
    (w' ≡ w)
    ⊎ ((a : Answer) × (h.answer ≡ some a)
        × (is_success a.status ≡ true)
        × IsOf key_id h.log
        × Charges created h.log w w')

pub Unbilled-Settles :
    (key_id : ℤ) (created : Option ℤ) (runs : Runs) (measured : ℤ) (h : Handled) (books : Books)
    → Unbilled h
    → IsOf key_id h.log
    → Settles key_id created h books.wallets
        (write_request_log created runs measured h.log books).wallets
Unbilled-Settles key_id created runs measured h books (inr free) of_key =
    inl (IsFree-no_debit created runs measured h.log books free)
Unbilled-Settles key_id created runs measured h books (inl (a, answered, won)) of_key =
    elim (log-Charges created runs measured h.log books) [
      | inl same ↦ inl same
      | inr charged ↦ inr (a, answered, won, of_key, charged)
    ]

module _ (endpoint : Endpoint) (env : Services) (up : Upstream)
    (write_error : ℕ → Option Text) where
  -- Whatever upstream does and whatever statements of the database fail, a request that starts with
  -- nothing billed leaves all wallets and the ledger as they were; or it is answered with a status
  -- from 200 to 299, its row in the log got an id, and one entry is posted: to the wallet of the
  -- user who owns the client key that the request started with, at the balance that was there, for
  -- the amount that the log bills, kept to the decimals of the columns.
  pub serve-Settles :
      (router : RouterState) (options : Options) (request : Request) (s : ChatLogState)
      (created : Option ℤ) (runs : Runs) (measured : ℤ) (books : Books)
      → s.billable_amount ≡ pos 0
      → let h = serve endpoint env up write_error router options request s in
        Settles s.client_api_key_id created h books.wallets
          (write_request_log created runs measured h.log books).wallets
  unfolding serve
  serve-Settles router options request s created runs measured books start =
      let checked = preflight endpoint env router options request s in
      let kept = preflight-Kept endpoint env router options request s in
      Unbilled-Settles s.client_api_key_id created runs measured
        (after_preflight (proxied endpoint) env up write_error request checked) books
        (after_preflight-Unbilled (proxied endpoint) env up write_error request checked
          (kept.1 ∙ start))
        (after_preflight-IsOf (proxied endpoint) env up write_error s.client_api_key_id request
          checked kept.2)
