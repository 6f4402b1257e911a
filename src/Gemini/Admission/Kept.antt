-- ===== src/Gemini/Admission/Kept.antt =====
-- What the checks of a Gemini request leave alone (backend/internal/api/openai/gemini.go).
use wcs_transfer.Base.{refl, Option, none, some, arith, Text}
use wcs_transfer.Entity.{Model, ModelRoute, ClientApiKey}
use wcs_transfer.Json.{Fields}
use wcs_transfer.Log.{ChatLogState}
use wcs_transfer.Routing.{RouterState, build_proxy_attempts}
use wcs_transfer.Proxy.{chat_completions}
use wcs_transfer.Checks.{
  Checked, refused, panicked, passed, Options, Request, Services, read_with, check_client_key,
  take_attempts,
}
use wcs_transfer.Preflight.Kept.{
  log_of, Kept, Kept-trans, and_then-Kept, check_client_key-Kept, take_attempts-Kept,
  encode_payload-Kept,
}
use wcs_transfer.Gemini.{upstream_payload, parse_gemini_generate_content_payload}
use wcs_transfer.Gemini.Admission.{
  find_gemini_route, check_gemini_reserve, with_estimate, prepare_gemini, admit_gemini, choose_key,
  with_key, gemini_attempts,
}

module _ (env : Services) where
  find_gemini_route-Kept :
      (public_model : Text) (s : ChatLogState)
      → Kept s (log_of (find_gemini_route env public_model s))
  unfolding find_gemini_route
  find_gemini_route-Kept public_model s = (ground arith, ground arith, ground arith)

  check_gemini_reserve-Kept :
      (key : Option ClientApiKey) (payload : Fields) (model : Model) (s : ChatLogState)
      → Kept s (log_of (check_gemini_reserve env key payload model s))
  unfolding check_gemini_reserve
  check_gemini_reserve-Kept none payload model s = (refl, refl, refl)
  check_gemini_reserve-Kept (some key) payload model s = (ground arith, ground arith, ground arith)

  prepare_gemini-Kept :
      (key : Option ClientApiKey) (payload : Fields) (route : ModelRoute) (s : ChatLogState)
      → Kept s (log_of (prepare_gemini env key payload route s))
  unfolding prepare_gemini
  prepare_gemini-Kept key payload route s =
      let sent = upstream_payload env.temperature env.integer route.model payload in
      let estimated = with_estimate env sent s in
      and_then-Kept s (check_gemini_reserve env key sent route.model estimated)
        (λ s' u. passed s' (route, sent)) (check_gemini_reserve-Kept key sent route.model estimated)
        (λ s' u. (refl, refl, refl))

  read-Kept :
      (options : Options) (request : Request) (s : ChatLogState)
      → Kept s (
          log_of
            (read_with env (parse_gemini_generate_content_payload env.decode) options request s))
  read-Kept options request s = (ground arith, ground arith, ground arith)

  -- Whatever the checks decide, they bill nothing, note no success and keep the client key.
  pub admit_gemini-Kept :
      (options : Options) (request : Request) (s : ChatLogState)
      → Kept s (log_of (admit_gemini env options request s))
  unfolding admit_gemini
  admit_gemini-Kept options request s =
      and_then-Kept s
        (read_with env (parse_gemini_generate_content_payload env.decode) options request s) _
        (read-Kept options request s)
        (λ s₁ read.
          and_then-Kept s₁ (check_client_key chat_completions env request.client_key read.1 s₁) _
            (check_client_key-Kept chat_completions env request.client_key read.1 s₁)
            (λ s₂ u.
              and_then-Kept s₂ (find_gemini_route env read.1 s₂) _
                (find_gemini_route-Kept read.1 s₂)
                (λ s₃ route. prepare_gemini-Kept request.client_key read.0 route s₃)))

  choose_key-Kept :
      (options : Options) (route : ModelRoute) (s : ChatLogState)
      → Kept s (log_of (choose_key env options route s))
  choose_key-Kept options route s = (ground arith, ground arith, ground arith)

  with_key-Kept :
      (router : RouterState) (options : Options) (payload : Fields) (s : ChatLogState)
      (c : Checked ModelRoute)
      → Kept s (log_of c)
      → Kept s (log_of (with_key env router options payload c).1)
  with_key-Kept router options payload s (refused s' f) h = h
  with_key-Kept router options payload s (panicked s') h = h
  with_key-Kept router options payload s (passed s' route) h =
      let built = (build_proxy_attempts router route options.ignore_key_health env.now).1 in
      let taken = take_attempts chat_completions env route built s' in
      and_then-Kept s taken _
        (Kept-trans s s' (log_of taken) h (take_attempts-Kept chat_completions env route built s'))
        (λ s'' attempts. encode_payload-Kept chat_completions env route attempts payload s'')

  pub gemini_attempts-Kept :
      (router : RouterState) (options : Options) (route : ModelRoute) (payload : Fields)
      (s : ChatLogState)
      → Kept s (log_of (gemini_attempts env router options route payload s).1)
  unfolding gemini_attempts
  gemini_attempts-Kept router options route payload s =
      with_key-Kept router options payload s (choose_key env options route s)
        (choose_key-Kept options route s)
