-- ===== src/Quota/Limits.antt =====
-- The limits hold, however many requests come (backend/internal/service/clientquota/service.go).
use wcs_transfer.Base.{
  ℕ, suc, ◌≡◌, refl, ap, ◌∙◌, ◌≢◌, ◌⊎◌, inl, inr, Bool, true, false, List, [], ◌∷◌, arith,
  if◌then◌else◌, Bool-cases, Option-cases, All, ℤ, pos, ◌+ℤ◌, ◌-ℤ◌, ◌≤ℤ◌, ltb_ℤ, is_positive,
  +ℤ_parts, int_laws,
}
use wcs_transfer.Entity.{Time, Duration, ClientApiKey}
use wcs_transfer.Quota.{
  QuotaKey, rpm, daily_requests, minute, minute_of, day_of, next_minute, tomorrow, CounterStore,
  CounterLaws, Kind, rpm_limit_exceeded, daily_request_limit_exceeded, Violation, Verdict, allowed,
  redis_error, violated, check_requests, check_tokens, check_rpm, check_daily_requests, then_check,
  consume_request,
}

abbrev pub is_allowed : Verdict → Bool
is_allowed allowed = true
is_allowed redis_error = false
is_allowed (violated v) = false

module _ {R : Type 0} (redis : CounterStore R) (laws : CounterLaws redis) where
  -- A counter never falls, and it has risen and is within the limit when the request is allowed.
  abbrev Counted : ℤ → QuotaKey → R → R × Verdict → Type 0
  Counted limit k r (r', v) =
      (laws.count r k ≤ℤ laws.count r' k)
      × (is_allowed v ≡ true
          → (laws.count r k +ℤ pos 1 ≤ℤ laws.count r' k) × (laws.count r' k ≤ℤ limit))

  within :
      (v : Violation) (limit n : ℤ)
      → is_allowed (if ltb_ℤ limit n then violated v else allowed) ≡ true
      → n ≤ℤ limit
  within v limit n h = ground (arith, h)

  check_requests-Counted :
      (limit : ℤ) (k : QuotaKey) (ttl : Duration) (kind : Kind) (reset_at : Time) (r : R)
      → is_positive limit ≡ true
      → Counted limit k r (check_requests redis limit k ttl kind reset_at r)
  unfolding check_requests
  check_requests-Counted limit k ttl kind reset_at r p =
      elim (Option-cases (redis.increment_by_with_ttl k (pos 1) ttl r).1) [
        | inl failed ↦
            (let grown = laws.increment-failed k (pos 1) ttl r (omega arith) failed in
              rw (p, failed) (grown, λ impossible. cc))
        | inr (n, answered) ↦
            (let (told, now_is) = laws.increment-count k (pos 1) ttl r n answered in
              rw (p, answered, now_is, told)
                (
                  omega (arith, +ℤ_parts (laws.count r k) (pos 1)),
                  λ passed. (omega arith, within _ limit (laws.count r k +ℤ pos 1) passed),
                ))
      ]

  check_requests-other :
      (limit : ℤ) (k j : QuotaKey) (ttl : Duration) (kind : Kind) (reset_at : Time) (r : R)
      → j ≢ k
      → laws.count (check_requests redis limit k ttl kind reset_at r).0 j ≡ laws.count r j
  unfolding check_requests
  check_requests-other limit k j ttl kind reset_at r apart = elim (Bool-cases (is_positive limit)) [
    | inl p ↦ rw p (laws.increment-other k j (pos 1) ttl r apart)
    | inr n ↦ rw n refl
  ]

  then_check-keeps :
      (P : R × Verdict → Type 0) (first : R × Verdict) (next : R → R × Verdict)
      → (is_allowed first.1 ≡ false → P first)
      → (is_allowed first.1 ≡ true → P (next first.0))
      → P (then_check redis first next)
  then_check-keeps P (r, allowed) next stop go_on = go_on refl
  then_check-keeps P (r, redis_error) next stop go_on = stop refl
  then_check-keeps P (r, violated v) next stop go_on = stop refl

  then_check-state :
      (first : R × Verdict) (judge : R → Verdict)
      → (then_check redis first (λ r. (r, judge r))).0 ≡ first.0
  then_check-state (r, allowed) judge = refl
  then_check-state (r, redis_error) judge = refl
  then_check-state (r, violated v) judge = refl

  -- The minute's counter in a whole check.
  consume_request-Counted :
      (key : ClientApiKey) (now : Time) (r : R)
      → is_positive key.id ≡ true
      → is_positive key.rpm_limit ≡ true
      → Counted key.rpm_limit (rpm key.id (minute_of now)) r (consume_request redis true key now r)
  unfolding consume_request check_rpm check_daily_requests
  consume_request-Counted key now r known limited =
      let k = rpm key.id (minute_of now) in
      let r' = (check_rpm redis key now r).0 in
      let (grown, counted) =
        check_requests-Counted key.rpm_limit k (pos minute) rpm_limit_exceeded (next_minute now) r
          limited in
      rw known (
        then_check-keeps (Counted key.rpm_limit k r) (check_rpm redis key now r) _
          (λ stop. (grown, counted))
          (λ passed.
            let same : laws.count
                  (then_check redis (check_daily_requests redis key now r')
                    (λ r''. (r'', check_tokens redis key now r''))).0
                  k
                ≡ laws.count r' k =
              ap (λ q. laws.count q k)
                (then_check-state (check_daily_requests redis key now r')
                  (check_tokens redis key now))
              ∙ check_requests-other key.daily_request_limit (daily_requests key.id (day_of now)) k
                  (tomorrow now -ℤ now) daily_request_limit_exceeded (tomorrow now) r' (λ e. cc) in
            rw same (grown, λ u. counted passed)))

  -- How many of the requests at these times are allowed.
  abbrev pub admitted : ClientApiKey → List Time → R → ℕ
  admitted key [] r = 0
  admitted key (now ∷ times) r =
      let (r', verdict) = consume_request redis true key now r in
      let rest = admitted key times r' in if is_allowed verdict then suc rest else rest

  -- Where there is a client of Redis, of the requests of a key in one minute no more are allowed than its limit leaves over from
  -- those counted before, however many come and whichever calls of Redis fail.
  pub admitted_bound :
      (key : ClientApiKey) (m : ℤ) (times : List Time) (r : R)
      → is_positive key.id ≡ true
      → is_positive key.rpm_limit ≡ true
      → All (λ now. minute_of now ≡ m) times
      → (admitted key times r ≡ 0)
        ⊎ (laws.count r (rpm key.id m) +ℤ pos (admitted key times r) ≤ℤ key.rpm_limit)
  admitted_bound key m [] r known limited same = inl refl
  admitted_bound key m (now ∷ times) r known limited (this, same) =
      let (r', verdict) = consume_request redis true key now r in
      let k = rpm key.id m in
      let (grown, counted) = rw this at (consume_request-Counted key now r known limited) in
      let rest = admitted_bound key m times r' known limited same in
      elim (Bool-cases (is_allowed verdict)) [
        | inl passed ↦
            (let (more, inside) = counted passed in
              rw passed (elim rest [
                | inl nobody ↦ inr (omega (int_laws, nobody, more, inside))
                | inr few ↦ inr (omega (int_laws, few, more))
              ]))
        | inr stopped ↦
            rw stopped
              (elim rest [ inl nobody ↦ inl nobody | inr few ↦ inr (omega (int_laws, few, grown)) ])
      ]
