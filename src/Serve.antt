-- ===== src/Serve.antt =====
-- A request from its arrival to the tasks it leaves (backend/internal/api/openai/handler.go:
-- `handleChatCompletions`, `handleEmbeddings`; anthropic.go: `handleMessages`). The tasks that a
-- handler leaves to the worker are values. The header fields of the answer, the stored payloads and
-- the debug headers are left out.
pub mod Unbilled
pub mod Payable
pub mod Charges
use wcs_transfer.Respond.{
  Answer, Responder, proxied, gemini, is_success, send_response, write_json_error,
}
use wcs_transfer.Base.{
  ℕ, Option, none, some, List, [], ◌∷◌, if◌then◌else◌, ℤ, pos, is_positive, Text, codes,
}
use wcs_transfer.Entity.{Model, ClientApiKey}
use wcs_transfer.KeyHealth.{clear}
use wcs_transfer.Log.{ChatLogState, Decoder}
use wcs_transfer.Routing.{RouterState}
use wcs_transfer.Proxy.{
  Endpoint, chat_completions, Upstream, Trace, LoopEnd, request_not_built, upstream_error,
  responded, exhausted, attempt_loop,
}
use wcs_transfer.Checks.{
  Failure, Checked, refused, panicked, passed, Options, Request, Services, Prepared,
}
use wcs_transfer.Preflight.{preflight}

abbrev pub internal_error : Text → Failure
internal_error message = record {
  status = pos 500;
  error_type = codes "internal_error";
  message = message;
}

abbrev pub with_counts : Trace → ChatLogState → ChatLogState
with_counts t s = record s {
  metadata = record (s.metadata) {
    failover_count = some t.failover_count;
    retry_count = some t.retry_count;
  };
}

-- What is done with the end of the loop. `exhausted` is the loop over no attempts: the handler
-- returns and answers nothing.
unfoldable pub after_loop :
    Responder
    → Decoder
    → Model
    → (ℕ → Option Text)
    → Trace
    → LoopEnd
    → ChatLogState
    → ChatLogState × Answer
after_loop responder decode model write_error t request_not_built s =
    write_json_error (internal_error (codes "failed to create upstream request")) s
after_loop responder decode model write_error t (upstream_error error) s =
    write_json_error
      (record { status = pos 502; error_type = codes "upstream_error"; message = error })
      (with_counts t s)
after_loop responder decode model write_error t (responded a r) s =
    send_response responder decode model write_error r (with_counts t s)
after_loop responder decode model write_error t exhausted s =
    (s, record { status = pos 200; written = []; failure = none })

-- `clearKeyPenalty`, of the key whose response is returned with success.
abbrev pub cleared : LoopEnd → Trace → Trace
cleared (responded a r) t =
    if is_success r.status then record t { key_health = clear t.key_health a.key.id } else t
cleared (upstream_error error) t = t
cleared request_not_built t = t
cleared exhausted t = t

-- The log, the answer, and the tasks for the worker in the order of their submission.
pub data Task : Type 0 where
  write_log : ChatLogState → Task
  add_tokens : ClientApiKey → ℤ → Task

pub record Handled : Type 0 where
  pub router : RouterState
  pub log : ChatLogState
  pub answer : Option Answer
  pub tasks : List Task

unfoldable pub tasks_of : Option ClientApiKey → ChatLogState → List Task
tasks_of none s = write_log s ∷ []
tasks_of (some client_key) s =
    if is_positive s.total_tokens
    then write_log s ∷ add_tokens client_key s.total_tokens ∷ []
    else write_log s ∷ []

abbrev pub handled : Request → RouterState → ChatLogState × Answer → Handled
handled request router (s, answer) = record {
  router = router;
  log = s;
  answer = some answer;
  tasks = tasks_of request.client_key s;
}

-- The loop of the Gemini handler is that of chat completions.
abbrev pub loop_of : Responder → Endpoint
loop_of (proxied endpoint) = endpoint
loop_of gemini = chat_completions

module _ (responder : Responder) (env : Services) (up : Upstream)
    (write_error : ℕ → Option Text) where
  -- After the loop over the attempts.
  abbrev pub with_loop : Request → RouterState → Model → ChatLogState → Trace × LoopEnd → Handled
  with_loop request router model s (t, ended) =
      handled request (record router { key_health = (cleared ended t).key_health })
        (after_loop responder env.decode model write_error t ended
          (record s { provider_key_id = t.provider_key_id }))

  unfoldable pub forward : Request → RouterState → Prepared → ChatLogState → Handled
  forward request router p s = with_loop request router p.route.model s (
      attempt_loop (loop_of responder) env.decode up 0 p.attempts (record {
        key_health = router.key_health;
        provider_key_id = s.provider_key_id;
        failover_count = 0;
        retry_count = 0;
        attempt_metadata = [];
      }))

  unfoldable pub after_preflight : Request → RouterState × Checked Prepared → Handled
  after_preflight request (router, refused s f) = handled request router (write_json_error f s)
  after_preflight request (router, panicked s) = record {
    router = router;
    log = s;
    answer = none;
    tasks = tasks_of request.client_key s;
  }
  after_preflight request (router, passed s p) = forward request router p s

module _ (endpoint : Endpoint) (env : Services) (up : Upstream)
    (write_error : ℕ → Option Text) where
  -- The handler of an endpoint, from the log it starts with.
  unfoldable pub serve : RouterState → Options → Request → ChatLogState → Handled
  serve router options request s =
      after_preflight (proxied endpoint) env up write_error request
        (preflight endpoint env router options request s)
