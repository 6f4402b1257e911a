-- ===== src/Proxy.antt =====
-- The loop over the attempts in `handleChatCompletions`, `handleEmbeddings` and `handleMessages`
-- (backend/internal/api/openai/handler.go and anthropic.go): each attempt sends the request with
-- its key; a request error, or a status that calls for another key or another try, goes on to the
-- next attempt if there is one, and everything else ends the loop.
--
-- What upstream answers, and the clock, are functions of the place of the attempt.
use wcs_transfer.Base.{
  ℕ, ◌+◌, Bool, true, not, ◌&&◌, ◌||◌, Option, none, some, List, [], ◌∷◌, ◌++◌, if◌then◌else◌,
  head?, ℤ, pos, leb_ℤ, eqb_ℤ, Text, codes,
}
pub mod Loop
pub mod Answer
pub mod Penalty
use wcs_transfer.Entity.{Time, Duration, ProviderKey}
use wcs_transfer.KeyHealth.{Tracker, penalize}
use wcs_transfer.Log.{Decoder, extract_error_message, extract_anthropic_error_type, first_non_empty}
use wcs_transfer.Routing.{
  ProxyAttempt, Phase, Decision, return_error, return_response, next_attempt_decision,
  should_failover_status, should_retry_status,
}

pub data Endpoint : Type 0 where
  chat_completions embeddings messages : Endpoint

-- A body is read in chunks, to its end or to an error.
pub record Body : Type 0 where
  pub chunks : List Text
  pub read_error : Option Text

pub record Response : Type 0 where
  pub status : ℤ
  pub content_type : Text
  pub body : Body

pub data Reply : Type 0 where
  request_error : Text → Reply
  response : Response → Reply

-- `io.ReadAll`: what was read, which is kept where the error is ignored.
unfoldable pub join_chunks : List Text → Text
join_chunks [] = []
join_chunks (c ∷ chunks) = c ++ join_chunks chunks

unfoldable pub read_all : Body → Text
read_all b = join_chunks b.chunks

-- What the loop meets: whether the request can be built, the replies, the clock.
pub record Upstream : Type 0 where
  pub request_valid : Bool
  pub send : ℕ → ProviderKey → Reply
  pub clock : ℕ → Time

-- An `attemptRecord`.
pub record AttemptRecord : Type 0 where
  pub attempt : ℕ
  pub phase : Phase
  pub provider_key_id : ℤ
  pub http_status : Option ℤ
  pub error_type : Text
  pub error_message : Text
  pub retryable : Option Bool
  pub decision : Decision

-- What the loop changes.
pub record Trace : Type 0 where
  pub key_health : Tracker
  pub provider_key_id : ℤ
  pub failover_count : ℕ
  pub retry_count : ℕ
  pub attempt_metadata : List AttemptRecord

-- How the loop ends. `exhausted` is the end of the list, which no attempt lets it reach.
pub data LoopEnd : Type 0 where
  request_not_built : LoopEnd
  upstream_error : Text → LoopEnd
  responded : ProxyAttempt → Response → LoopEnd
  exhausted : LoopEnd

-- Nanoseconds: 10 s, 30 s and 10 min.
abbrev pub key_cooldown_transient : Duration
key_cooldown_transient = pos 10000000000

abbrev pub key_cooldown_rate_limited : Duration
key_cooldown_rate_limited = pos 30000000000

abbrev pub key_cooldown_unauthorized : Duration
key_cooldown_unauthorized = pos 600000000000

unfoldable pub apply_status_penalty : Tracker → ℤ → ℤ → Time → Tracker
apply_status_penalty t key_id status now =
    if eqb_ℤ status (pos 401) || eqb_ℤ status (pos 403)
    then penalize t key_id key_cooldown_unauthorized (codes "auth_error") now
    else (if eqb_ℤ status (pos 429)
        then penalize t key_id key_cooldown_rate_limited (codes "rate_limited") now
        else (if leb_ℤ (pos 500) status
            then penalize t key_id key_cooldown_transient (codes "upstream_error") now
            else t))

abbrev pub same_key : ProxyAttempt → ProxyAttempt → Bool
same_key a b = eqb_ℤ a.key.id b.key.id

-- Whether a response with this status is given up for the next attempt. For embeddings the retry
-- with the same key is not restricted to the statuses that are worth it.
unfoldable pub goes_on : Endpoint → ℤ → ProxyAttempt → ProxyAttempt → Bool
unfolding should_failover_status should_retry_status
goes_on embeddings status a next = should_failover_status status
goes_on chat_completions status a next =
    should_failover_status status && (not (same_key next a) || should_retry_status status)
goes_on messages status a next =
    should_failover_status status && (not (same_key next a) || should_retry_status status)

abbrev pub count_move : Bool → Trace → Trace
count_move same t =
    if same
    then record t { retry_count = t.retry_count + 1 }
    else record t { failover_count = t.failover_count + 1 }

abbrev pub add_record : AttemptRecord → Trace → Trace
add_record r t = record t { attempt_metadata = t.attempt_metadata ++ r ∷ [] }

abbrev pub response_error_type : Endpoint → Decoder → Text → Text
response_error_type messages decode body =
    first_non_empty
      (extract_anthropic_error_type decode body ∷ codes "upstream_response_error" ∷ [])
response_error_type chat_completions decode body = codes "upstream_response_error"
response_error_type embeddings decode body = codes "upstream_response_error"

abbrev pub response_retryable : Endpoint → ℤ → Option Bool
response_retryable embeddings status = none
response_retryable chat_completions status = some (should_retry_status status)
response_retryable messages status = some (should_retry_status status)

abbrev pub error_record : ℕ → ProxyAttempt → Text → Decision → AttemptRecord
error_record i a error d = record {
  attempt = i + 1;
  phase = a.phase;
  provider_key_id = a.key.id;
  http_status = none;
  error_type = codes "upstream_error";
  error_message = error;
  retryable = some true;
  decision = d;
}

abbrev pub response_record : ℕ → ProxyAttempt → Response → Decision → AttemptRecord
response_record i a r d = record {
  attempt = i + 1;
  phase = a.phase;
  provider_key_id = a.key.id;
  http_status = some r.status;
  error_type = [];
  error_message = [];
  retryable = none;
  decision = d;
}

module _ (endpoint : Endpoint) (decode : Decoder) (up : Upstream) where
  -- After a request error: the key gets a short penalty, and the next attempt follows if there is
  -- one.
  unfoldable pub after_request_error :
      ℕ → ProxyAttempt → Option ProxyAttempt → Text → Trace → Trace × Option LoopEnd
  unfolding next_attempt_decision
  after_request_error i a next error t =
      let t' = record t {
        key_health =
            penalize t.key_health a.key.id key_cooldown_transient (codes "request_error")
              (up.clock i);
      } in
      elim next [
        | none ↦ (add_record (error_record i a error return_error) t', some (upstream_error error))
        | some n ↦ (
          add_record (error_record i a error (next_attempt_decision n.phase))
              (count_move (same_key n a) t'),
          none,
        )
      ]

  -- A response that is given up: its key gets the penalty of its status.
  unfoldable pub give_up : ℕ → ProxyAttempt → ProxyAttempt → Response → Trace → Trace
  unfolding next_attempt_decision read_all
  give_up i a n r t =
      let body = read_all r.body in
      add_record
        (record (response_record i a r (next_attempt_decision n.phase)) {
          error_type = response_error_type endpoint decode body;
          error_message = extract_error_message decode body;
          retryable = response_retryable endpoint r.status;
        })
        (count_move (same_key n a) (record t {
          key_health = apply_status_penalty t.key_health a.key.id r.status (up.clock i);
        }))

  unfoldable pub after_response :
      ℕ → ProxyAttempt → Option ProxyAttempt → Response → Trace → Trace × Option LoopEnd
  after_response i a none r t =
      (add_record (response_record i a r return_response) t, some (responded a r))
  after_response i a (some n) r t =
      if goes_on endpoint r.status a n
      then (give_up i a n r t, none)
      else (add_record (response_record i a r return_response) t, some (responded a r))

  -- The body of the loop; `none` goes on.
  unfoldable pub attempt_step :
      ℕ → ProxyAttempt → Option ProxyAttempt → Trace → Trace × Option LoopEnd
  attempt_step i a next t =
      let t' = record t { provider_key_id = a.key.id } in
      if not up.request_valid then (t', some request_not_built) else elim (up.send i a.key) [
        | request_error error ↦ after_request_error i a next error t'
        | response r ↦ after_response i a next r t'
      ]

  unfoldable pub attempt_loop : ℕ → List ProxyAttempt → Trace → Trace × LoopEnd
  attempt_loop i [] t = (t, exhausted)
  attempt_loop i (a ∷ rest) t =
      let (t', ended) = attempt_step i a (head? rest) t in
      elim ended [ none ↦ attempt_loop (i + 1) rest t' | some e ↦ (t', e) ]
