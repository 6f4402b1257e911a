-- ===== src/Proxy/Loop.antt =====
-- How the loop over the attempts ends, and what it counts
-- (backend/internal/api/openai/handler.go and anthropic.go).
use wcs_transfer.Base.{
  ℕ, suc, ◌+◌, ◌≤◌, ◌≡◌, refl, ◌≢◌, ◌⊎◌, inl, inr, Bool, true, false, not, Option, none, some, List,
  [], ◌∷◌, arith, if◌then◌else◌, Bool-cases, length, length-append, Text,
}
use wcs_transfer.Log.{Decoder}
use wcs_transfer.Routing.{ProxyAttempt}
use wcs_transfer.Proxy.{
  Endpoint, Response, Reply, request_error, response, Upstream, Trace, LoopEnd, request_not_built,
  upstream_error, responded, exhausted, goes_on, same_key, after_request_error, give_up,
  after_response, attempt_step, attempt_loop,
}

-- Each move to the next attempt is counted as a retry or as a failover.
abbrev pub moves : Trace → ℕ
moves t = t.failover_count + t.retry_count

-- The records that are written when the loop ends: one, unless the request cannot be built.
abbrev pub last_records : LoopEnd → ℕ
last_records request_not_built = 0
last_records (upstream_error _) = 1
last_records (responded _ _) = 1
last_records exhausted = 0

module _ (endpoint : Endpoint) (decode : Decoder) (up : Upstream) where
  abbrev step : ℕ → ProxyAttempt → Option ProxyAttempt → Trace → Trace × Option LoopEnd
  step = attempt_step endpoint decode up

  abbrev run : ℕ → List ProxyAttempt → Trace → Trace × LoopEnd
  run = attempt_loop endpoint decode up

  -- A step that goes on writes one record and counts one move; one that ends counts none.
  abbrev Counts : Trace → Trace × Option LoopEnd → Type 0
  Counts t (t', none) =
      (length t'.attempt_metadata ≡ length t.attempt_metadata + 1) × (moves t' ≡ moves t + 1)
  Counts t (t', some e) =
      (length t'.attempt_metadata ≡ length t.attempt_metadata + last_records e)
      × (moves t' ≡ moves t)
      × (e ≢ exhausted)

  error-Counts :
      (i : ℕ) (a : ProxyAttempt) (next : Option ProxyAttempt) (error : Text) (t : Trace)
      → Counts t (after_request_error endpoint decode up i a next error t)
  unfolding after_request_error
  error-Counts i a none error t = (length-append t.attempt_metadata _, refl, λ e. cc)
  error-Counts i a (some n) error t = elim (Bool-cases (same_key n a)) [
    | inl same ↦ rw same (length-append t.attempt_metadata _, omega arith)
    | inr other ↦ rw other (length-append t.attempt_metadata _, omega arith)
  ]

  response-Counts :
      (i : ℕ) (a : ProxyAttempt) (next : Option ProxyAttempt) (r : Response) (t : Trace)
      → Counts t (after_response endpoint decode up i a next r t)
  unfolding after_response give_up
  response-Counts i a none r t = (length-append t.attempt_metadata _, refl, λ e. cc)
  response-Counts i a (some n) r t = elim (Bool-cases (goes_on endpoint r.status a n)) [
    | inl on ↦ elim (Bool-cases (same_key n a)) [
      | inl same ↦ rw (on, same) (length-append t.attempt_metadata _, omega arith)
      | inr other ↦ rw (on, other) (length-append t.attempt_metadata _, omega arith)
    ]
    | inr ends ↦ rw ends (length-append t.attempt_metadata _, refl, λ e. cc)
  ]

  step-Counts :
      (i : ℕ) (a : ProxyAttempt) (next : Option ProxyAttempt) (t : Trace)
      → Counts t (step i a next t)
  unfolding attempt_step
  step-Counts i a next t = go up.request_valid (up.send i a.key)
    where
      t₁ : Trace
      t₁ = record t { provider_key_id = a.key.id }

      go :
          (valid : Bool) (reply : Reply)
          → Counts t (
              if not valid then (t₁, some request_not_built) else elim reply [
                | request_error error ↦ after_request_error endpoint decode up i a next error t₁
                | response r ↦ after_response endpoint decode up i a next r t₁
              ])
      go false reply = (omega arith, refl, λ e. cc)
      go true (request_error error) = error-Counts i a next error t₁
      go true (response r) = response-Counts i a next r t₁

  abbrev Ends : Trace × Option LoopEnd → Type 0
  Ends (t', ended) = ended ≢ none

  -- The step of the last attempt ends the loop.
  step_last : (i : ℕ) (a : ProxyAttempt) (t : Trace) → Ends (step i a none t)
  unfolding attempt_step after_request_error after_response
  step_last i a t = go up.request_valid (up.send i a.key)
    where
      t₁ : Trace
      t₁ = record t { provider_key_id = a.key.id }

      go :
          (valid : Bool) (reply : Reply)
          → Ends (
              if not valid then (t₁, some request_not_built) else elim reply [
                | request_error error ↦ after_request_error endpoint decode up i a none error t₁
                | response r ↦ after_response endpoint decode up i a none r t₁
              ])
      go false reply = λ e. cc
      go true (request_error error) = λ e. cc
      go true (response r) = λ e. cc

  abbrev Tally : ℕ → Trace → Trace × LoopEnd → Type 0
  Tally room t (t', e) =
      (e ≢ exhausted)
      × (length t'.attempt_metadata + moves t
          ≡ length t.attempt_metadata + moves t' + last_records e)
      × (length t'.attempt_metadata ≤ length t.attempt_metadata + room)

  ended-Tally :
      (n : ℕ) (t t' : Trace) (e : LoopEnd) → Counts t (t', some e) → Tally (suc n) t (t', e)
  ended-Tally n t t' request_not_built (wrote, moved, ends) = (ends, omega arith, omega arith)
  ended-Tally n t t' (upstream_error x) (wrote, moved, ends) = (ends, omega arith, omega arith)
  ended-Tally n t t' (responded a x) (wrote, moved, ends) = (ends, omega arith, omega arith)
  ended-Tally n t t' exhausted (wrote, moved, ends) = absurd (ends refl)

  -- What is left of the loop after a step that counted right.
  rest-Tally :
      (i : ℕ) (rest : List ProxyAttempt) (t : Trace) (r : Trace × Option LoopEnd)
      → Counts t r
      → Ends r ⊎ ((t' : Trace) → Tally (length rest) t' (run (i + 1) rest t'))
      → Tally (suc (length rest)) t (elim (r.1) [ none ↦ run (i + 1) rest r.0 | some e ↦ (r.0, e) ])
  rest-Tally i rest t (t', none) (wrote, moved) (inl ends) = absurd (ends refl)
  rest-Tally i rest t (t', none) (wrote, moved) (inr ih) =
      let (ends, counted, bounded) = ih t' in (ends, omega arith, omega arith)
  rest-Tally i rest t (t', some e) c _ = ended-Tally (length rest) t t' e c

  run-Tally :
      (i : ℕ) (a : ProxyAttempt) (rest : List ProxyAttempt) (t : Trace)
      → Tally (length (a ∷ rest)) t (run i (a ∷ rest) t)
  unfolding attempt_loop
  run-Tally i a [] t =
      rest-Tally i [] t (step i a none t) (step-Counts i a none t) (inl (step_last i a t))
  run-Tally i a (b ∷ rest) t =
      rest-Tally i (b ∷ rest) t (step i a (some b) t) (step-Counts i a (some b) t)
        (inr (run-Tally (i + 1) b rest))

  -- Over any attempts, at least one, the loop ends within them: it never runs off their end. The
  -- records it writes are no more than the attempts: one for each move to a next attempt, counted as
  -- a retry or a failover, and one for how it ended, unless no request could be built.
  pub attempt_loop_tally :
      (i : ℕ) (a : ProxyAttempt) (rest : List ProxyAttempt) (t : Trace)
      → let (t', e) = attempt_loop endpoint decode up i (a ∷ rest) t in
        (e ≢ exhausted)
        × (length t'.attempt_metadata + moves t
            ≡ length t.attempt_metadata + moves t' + last_records e)
        × (length t'.attempt_metadata ≤ length t.attempt_metadata + length (a ∷ rest))
  attempt_loop_tally i a rest t = run-Tally i a rest t
