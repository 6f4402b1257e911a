-- ===== src/Proxy/Answer.antt =====
-- Which response the loop over the attempts hands to the client
-- (backend/internal/api/openai/handler.go and anthropic.go).
use wcs_transfer.Base.{
  ℕ, ◌+◌, ◌≡◌, refl, ◌⊎◌, inl, inr, Bool, true, false, not, Option, none, some, List, [], ◌∷◌,
  if◌then◌else◌, Bool-cases, head?, Text,
}
use wcs_transfer.Log.{Decoder}
use wcs_transfer.Routing.{ProxyAttempt}
use wcs_transfer.Proxy.{
  Endpoint, Response, Reply, request_error, response, Upstream, Trace, LoopEnd, request_not_built,
  upstream_error, responded, exhausted, goes_on, after_request_error, after_response, attempt_step,
  attempt_loop,
}

module _ (endpoint : Endpoint) (decode : Decoder) (up : Upstream) where
  -- A reply is given up for the next attempt.
  abbrev pub MovesOn : ℕ → ProxyAttempt → Option ProxyAttempt → Type 0
  MovesOn i a none = ⊥
  MovesOn i a (some next) =
      ((error : Text) × (up.send i a.key ≡ request_error error))
      ⊎ ((r : Response) × (up.send i a.key ≡ response r)
          × (goes_on endpoint r.status a next ≡ true))

  -- A response is kept: it is the last attempt's, or its status does not call for the next one.
  abbrev pub Keeps : ProxyAttempt → Response → Option ProxyAttempt → Type 0
  Keeps a r none = Unit
  Keeps a r (some next) = goes_on endpoint r.status a next ≡ false

  -- The response is what some attempt was answered and kept, and every attempt before it was given
  -- up for the next.
  abbrev pub Answers : ℕ → List ProxyAttempt → ProxyAttempt → Response → Type 0
  Answers i [] a r = ⊥
  Answers i (b ∷ rest) a r =
      ((b ≡ a) × (up.send i b.key ≡ response r) × Keeps b r (head? rest))
      ⊎ (MovesOn i b (head? rest) × Answers (i + 1) rest a r)

  -- The last attempt failed with this error, and every attempt before it was given up.
  abbrev pub AllMove : ℕ → List ProxyAttempt → Text → Type 0
  AllMove i [] error = ⊥
  AllMove i (b ∷ rest) error =
      ((up.send i b.key ≡ request_error error) × (head? rest ≡ none))
      ⊎ (MovesOn i b (head? rest) × AllMove (i + 1) rest error)

  abbrev StepSays : ℕ → ProxyAttempt → Option ProxyAttempt → Option LoopEnd → Type 0
  StepSays i b next none = MovesOn i b next
  StepSays i b next (some (responded a r)) =
      (b ≡ a) × (up.send i b.key ≡ response r) × Keeps b r next
  StepSays i b next (some request_not_built) = up.request_valid ≡ false
  StepSays i b next (some (upstream_error error)) =
      (up.send i b.key ≡ request_error error) × (next ≡ none)
  StepSays i b next (some exhausted) = ⊥

  abbrev Says : ℕ → ProxyAttempt → Option ProxyAttempt → Trace × Option LoopEnd → Type 0
  Says i b next (t, ended) = StepSays i b next ended

  error-Says :
      (i : ℕ) (b : ProxyAttempt) (next : Option ProxyAttempt) (error : Text) (t : Trace)
      → up.send i b.key ≡ request_error error
      → Says i b next (after_request_error endpoint decode up i b next error t)
  unfolding after_request_error
  error-Says i b none error t sent = (sent, refl)
  error-Says i b (some n) error t sent = inl (error, sent)

  response-Says :
      (i : ℕ) (b : ProxyAttempt) (next : Option ProxyAttempt) (r : Response) (t : Trace)
      → up.send i b.key ≡ response r
      → Says i b next (after_response endpoint decode up i b next r t)
  unfolding after_response
  response-Says i b none r t sent = (refl, sent, tt)
  response-Says i b (some n) r t sent = elim (Bool-cases (goes_on endpoint r.status b n)) [
    | inl on ↦ rw on (inr (r, sent, on))
    | inr stays ↦ rw stays (refl, sent, stays)
  ]

  step-Says :
      (i : ℕ) (b : ProxyAttempt) (next : Option ProxyAttempt) (t : Trace)
      → Says i b next (attempt_step endpoint decode up i b next t)
  unfolding attempt_step
  step-Says i b next t = go up.request_valid refl (up.send i b.key) refl
    where
      t₁ : Trace
      t₁ = record t { provider_key_id = b.key.id }

      go :
          (valid : Bool)
          → up.request_valid ≡ valid
          → (reply : Reply) → up.send i b.key ≡ reply
          → Says i b next (
              if not valid then (t₁, some request_not_built) else elim reply [
                | request_error error ↦ after_request_error endpoint decode up i b next error t₁
                | response r ↦ after_response endpoint decode up i b next r t₁
              ])
      go false bad reply sent = bad
      go true _ (request_error error) sent = error-Says i b next error t₁ sent
      go true _ (response r) sent = response-Says i b next r t₁ sent

  -- What the whole loop says by how it ended.
  abbrev pub EndSays : ℕ → List ProxyAttempt → LoopEnd → Type 0
  EndSays i attempts (responded a r) = Answers i attempts a r
  EndSays i attempts request_not_built = up.request_valid ≡ false
  EndSays i attempts (upstream_error error) = AllMove i attempts error
  EndSays i attempts exhausted = attempts ≡ []

  abbrev Ended : ℕ → List ProxyAttempt → Trace × LoopEnd → Type 0
  Ended i attempts (t, e) = EndSays i attempts e

  lift :
      (i : ℕ) (b : ProxyAttempt) (rest : List ProxyAttempt) (e : LoopEnd)
      → MovesOn i b (head? rest)
      → EndSays (i + 1) rest e
      → EndSays i (b ∷ rest) e
  lift i b rest (responded a r) moves says = inr (moves, says)
  lift i b rest request_not_built moves says = says
  lift i b rest (upstream_error error) moves says = inr (moves, says)
  lift i b [] exhausted moves says = absurd moves
  lift i b (c ∷ rest) exhausted moves says = cc

  rest-EndSays :
      (i : ℕ) (b : ProxyAttempt) (rest : List ProxyAttempt) (r : Trace × Option LoopEnd)
      → Says i b (head? rest) r
      → ((t' : Trace) → EndSays (i + 1) rest (attempt_loop endpoint decode up (i + 1) rest t').1)
      → Ended i (b ∷ rest) (elim (r.1) [
        | none ↦ attempt_loop endpoint decode up (i + 1) rest r.0
        | some e ↦ (r.0, e)
      ])
  rest-EndSays i b rest (t', none) moves ih =
      lift i b rest (attempt_loop endpoint decode up (i + 1) rest t').1 moves (ih t')
  rest-EndSays i b rest (t', some (responded a r)) says ih = inl says
  rest-EndSays i b rest (t', some request_not_built) says ih = says
  rest-EndSays i b rest (t', some (upstream_error error)) says ih = inl says
  rest-EndSays i b rest (t', some exhausted) says ih = absurd says

  -- How the loop ends says what happened. With a response, it is what some attempt was answered and
  -- kept, and every attempt before it was given up for the next, after a request error or for a
  -- status that calls for it. With an upstream error, it is the error of the last attempt, and every
  -- attempt before was given up. Otherwise there was no attempt, or the request could not be built.
  pub attempt_loop-EndSays :
      (i : ℕ) (attempts : List ProxyAttempt) (t : Trace)
      → EndSays i attempts (attempt_loop endpoint decode up i attempts t).1
  unfolding attempt_loop
  attempt_loop-EndSays i [] t = refl
  attempt_loop-EndSays i (b ∷ rest) t =
      rest-EndSays i b rest (attempt_step endpoint decode up i b (head? rest) t)
        (step-Says i b (head? rest) t) (attempt_loop-EndSays (i + 1) rest)
