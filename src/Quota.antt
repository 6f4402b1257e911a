-- ===== src/Quota.antt =====
-- The quotas of client keys (backend/internal/service/clientquota/service.go), with their check
-- before a request (backend/internal/middleware/public_api_quota.go). Redis is an interface: a
-- store of counters, whose calls may fail. The text of a Redis key is written from a client's id,
-- the kind of the counter and a minute or a day, which are its constructors here. `has_redis` says
-- whether there is a service with a client of Redis: without one nothing is limited. Percentages,
-- which only the console shows, are left out.
mod Types
unfoldable pub use Types.*
pub mod Limits
use wcs_transfer.Base.{
  Bool, true, false, not, ◌||◌, Option, none, some, if◌then◌else◌, ℤ, pos, ◌-ℤ◌, ◌/ℤ◌, ltb_ℤ, leb_ℤ,
  is_positive,
}
use wcs_transfer.Entity.{Time, Duration, ClientApiKey}

unfoldable pub limit_remaining : ℤ → ℤ → ℤ
limit_remaining limit current =
    if not (is_positive limit)
    then pos 0
    else (let remaining = limit -ℤ current in if ltb_ℤ remaining (pos 0) then pos 0 else remaining)

module _ {R : Type 0} (redis : CounterStore R) where
  -- A limit on the number of requests, which counts the request first.
  unfoldable pub check_requests : ℤ → QuotaKey → Duration → Kind → Time → R → R × Verdict
  check_requests limit k ttl kind reset_at r =
      if not (is_positive limit)
      then (r, allowed)
      else (let (r', answer) = redis.increment_by_with_ttl k (pos 1) ttl r in
          (
            r',
            elim answer [
              | none ↦ redis_error
              | some count ↦
                  if ltb_ℤ limit count
                  then violated
                      (record { kind = kind; limit = limit; current = count; reset_at = reset_at })
                  else allowed
            ],
          ))

  -- The limit on tokens, which only reads what was used.
  unfoldable pub check_tokens : ClientApiKey → Time → R → Verdict
  check_tokens key now r =
      if not (is_positive key.daily_token_limit)
      then allowed
      else (elim (redis.read_counter (daily_tokens key.id (day_of now)) r) [
        | none ↦ redis_error
        | some current ↦
            if leb_ℤ key.daily_token_limit current
            then violated (record {
              kind = daily_token_limit_exceeded;
              limit = key.daily_token_limit;
              current = current;
              reset_at = tomorrow now;
            })
            else allowed
      ])

  unfoldable pub check_rpm : ClientApiKey → Time → R → R × Verdict
  unfolding check_requests
  check_rpm key now =
      check_requests key.rpm_limit (rpm key.id (minute_of now)) (pos minute) rpm_limit_exceeded
        (next_minute now)

  unfoldable pub check_daily_requests : ClientApiKey → Time → R → R × Verdict
  unfolding check_requests
  check_daily_requests key now =
      check_requests key.daily_request_limit (daily_requests key.id (day_of now))
        (tomorrow now -ℤ now) daily_request_limit_exceeded (tomorrow now)

  -- The next check, when the one before allowed.
  abbrev pub then_check : R × Verdict → (R → R × Verdict) → R × Verdict
  then_check (r, allowed) next = next r
  then_check (r, redis_error) next = (r, redis_error)
  then_check (r, violated v) next = (r, violated v)

  unfoldable pub consume_request : Bool → ClientApiKey → Time → R → R × Verdict
  consume_request has_redis key now r =
      if not has_redis || not (is_positive key.id)
      then (r, allowed)
      else then_check (check_rpm key now r) (λ r'.
        then_check (check_daily_requests key now r') (λ r''. (r'', check_tokens key now r'')))

  unfoldable pub add_token_usage : Bool → ClientApiKey → ℤ → Time → R → R × Bool
  add_token_usage has_redis key total_tokens now r =
      if not has_redis || not (is_positive key.id) || not (is_positive total_tokens)
      then (r, true)
      else (let (r', answer) =
            redis.increment_by_with_ttl (daily_tokens key.id (day_of now)) total_tokens
              (tomorrow now -ℤ now) r in
          (r', elim answer [ none ↦ false | some n ↦ true ]))

  -- A counter of `GetUsage`; `none` is an error, and `some none` a limit that is not set.
  abbrev pub read_limited : ℤ → QuotaKey → R → Option (Option ℤ)
  read_limited limit k r =
      if is_positive limit
      then (elim (redis.read_counter k r) [ none ↦ none | some value ↦ some (some value) ])
      else some none

  abbrev pub with_rpm : ClientApiKey → Time → Option ℤ → ClientQuotaUsage → ClientQuotaUsage
  with_rpm key now none u = u
  with_rpm key now (some value) u = record u {
    current_rpm = value;
    rpm_remaining = limit_remaining key.rpm_limit value;
    rpm_reset_at = some (next_minute now);
    is_rpm_limited = leb_ℤ key.rpm_limit value;
  }

  abbrev pub with_daily_requests :
      ClientApiKey → Time → Option ℤ → ClientQuotaUsage → ClientQuotaUsage
  with_daily_requests key now none u = u
  with_daily_requests key now (some value) u = record u {
    daily_requests_used = value;
    daily_requests_remaining = limit_remaining key.daily_request_limit value;
    daily_reset_at = some (tomorrow now);
    is_daily_request_limited = leb_ℤ key.daily_request_limit value;
  }

  abbrev pub with_daily_tokens :
      ClientApiKey → Time → Option ℤ → ClientQuotaUsage → ClientQuotaUsage
  with_daily_tokens key now none u = u
  with_daily_tokens key now (some value) u = record u {
    daily_tokens_used = value;
    daily_tokens_remaining = limit_remaining key.daily_token_limit value;
    daily_reset_at = some (tomorrow now);
    is_daily_token_limited = leb_ℤ key.daily_token_limit value;
  }

  unfoldable pub get_usage : Bool → ClientApiKey → Time → R → Option ClientQuotaUsage
  get_usage has_redis key now r =
      if not has_redis || not (is_positive key.id)
      then some no_usage
      else (elim (read_limited key.rpm_limit (rpm key.id (minute_of now)) r) [
        | none ↦ none
        | some rpm_value ↦
            elim (read_limited key.daily_request_limit (daily_requests key.id (day_of now)) r) [
              | none ↦ none
              | some requests ↦
                  elim (read_limited key.daily_token_limit (daily_tokens key.id (day_of now)) r) [
                    | none ↦ none
                    | some tokens ↦ some (
                        with_daily_tokens key now tokens (
                          with_daily_requests key now requests
                            (with_rpm key now rpm_value no_usage)))
                  ]
            ]
      ])

-- `retryAfterSeconds`
unfoldable pub retry_after_seconds : Time → Time → ℤ
retry_after_seconds reset_at now =
    let seconds = (reset_at -ℤ now) /ℤ 1000000000 in
    if ltb_ℤ seconds (pos 1) then pos 1 else seconds

-- `PublicAPIQuota`: whether the request goes on, or the status and the seconds to wait.
pub data QuotaAnswer : Type 0 where
  next : QuotaAnswer
  abort : ℤ → Option ℤ → QuotaAnswer

unfoldable pub public_api_quota : Verdict → Time → QuotaAnswer
unfolding retry_after_seconds
public_api_quota allowed now = next
public_api_quota redis_error now = abort (pos 500) none
public_api_quota (violated v) now = abort (pos 429) (some (retry_after_seconds v.reset_at now))
