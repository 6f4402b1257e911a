-- ===== src/Quota/Types.antt =====
-- Counters, their laws, and what the quotas answer with
-- (backend/internal/service/clientquota/service.go).
use wcs_transfer.Base.{ℕ, ◌≡◌, ◌≢◌, Bool, false, Option, none, some, ℤ, pos, ◌+ℤ◌, ◌*ℤ◌, ◌/ℤ◌, ◌≤ℤ◌}
use wcs_transfer.Entity.{Time, Duration}

-- A window is counted in minutes or days since the epoch.
pub data QuotaKey : Type 0 where
  rpm : ℤ → ℤ → QuotaKey
  daily_requests : ℤ → ℤ → QuotaKey
  daily_tokens : ℤ → ℤ → QuotaKey

abbrev pub minute : ℕ
minute = 60000000000

abbrev pub day : ℕ
day = 86400000000000

abbrev pub minute_of : Time → ℤ
minute_of now = now /ℤ minute

abbrev pub day_of : Time → ℤ
day_of now = now /ℤ day

-- `now.UTC().Truncate(time.Minute).Add(time.Minute)` and `tomorrowUTC`
abbrev pub next_minute : Time → Time
next_minute now = (minute_of now +ℤ pos 1) *ℤ pos minute

abbrev pub tomorrow : Time → Time
tomorrow now = (day_of now +ℤ pos 1) *ℤ pos day

-- `incrementByWithTTL`, which answers with the count, and `readCounter`, where a key that is not
-- there counts nothing. `none` is an error.
pub record CounterStore (R : Type 0) : Type 0 where
  pub increment_by_with_ttl : QuotaKey → ℤ → Duration → R → R × Option ℤ
  pub read_counter : QuotaKey → R → Option ℤ

-- What the code relies on while a window lasts, in which no counter of it expires: a count is what
-- was added, an increment answers with the new count and touches no other counter, and one that
-- fails may have been made all the same.
pub record CounterLaws {R : Type 0} (redis : CounterStore R) : Type 0 where
  pub count : R → QuotaKey → ℤ
  pub increment-count :
      (k : QuotaKey) (amount : ℤ) (ttl : Duration) (r : R) (n : ℤ)
      → (redis.increment_by_with_ttl k amount ttl r).1 ≡ some n
      → (n ≡ count r k +ℤ amount) × (count (redis.increment_by_with_ttl k amount ttl r).0 k ≡ n)
  pub increment-failed :
      (k : QuotaKey) (amount : ℤ) (ttl : Duration) (r : R)
      → pos 0 ≤ℤ amount
      → (redis.increment_by_with_ttl k amount ttl r).1 ≡ none
      → count r k ≤ℤ count (redis.increment_by_with_ttl k amount ttl r).0 k
  pub increment-other :
      (k j : QuotaKey) (amount : ℤ) (ttl : Duration) (r : R)
      → j ≢ k
      → count (redis.increment_by_with_ttl k amount ttl r).0 j ≡ count r j
  pub read-count : (k : QuotaKey) (r : R) (n : ℤ) → redis.read_counter k r ≡ some n → n ≡ count r k

pub data Kind : Type 0 where
  rpm_limit_exceeded daily_request_limit_exceeded daily_token_limit_exceeded : Kind

pub record Violation : Type 0 where
  pub kind : Kind
  pub limit : ℤ
  pub current : ℤ
  pub reset_at : Time

-- The error of `ConsumeRequest`, or none.
pub data Verdict : Type 0 where
  allowed : Verdict
  redis_error : Verdict
  violated : Violation → Verdict

pub record ClientQuotaUsage : Type 0 where
  pub current_rpm : ℤ
  pub rpm_remaining : ℤ
  pub rpm_reset_at : Option Time
  pub is_rpm_limited : Bool
  pub daily_requests_used : ℤ
  pub daily_requests_remaining : ℤ
  pub daily_reset_at : Option Time
  pub is_daily_request_limited : Bool
  pub daily_tokens_used : ℤ
  pub daily_tokens_remaining : ℤ
  pub is_daily_token_limited : Bool

abbrev pub no_usage : ClientQuotaUsage
no_usage = record {
  current_rpm = pos 0;
  rpm_remaining = pos 0;
  rpm_reset_at = none;
  is_rpm_limited = false;
  daily_requests_used = pos 0;
  daily_requests_remaining = pos 0;
  daily_reset_at = none;
  is_daily_request_limited = false;
  daily_tokens_used = pos 0;
  daily_tokens_remaining = pos 0;
  is_daily_token_limited = false;
}
