-- ===== src/Preflight.antt =====
-- What the handlers of the three endpoints do before they call upstream, composed of the checks
-- (backend/internal/api/openai/handler.go: `handleChatCompletions`, `handleEmbeddings` to the
-- upstream loop; anthropic.go: `handleMessages`).
pub mod Kept
pub mod Admitted
use wcs_transfer.Checks.{
  Checked, Options, Prepared, Request, Services, and_then, check_client_key, check_payload,
  check_reserve, encode_payload, find_route, panicked, passed, read_request, read_stream_flag,
  refused, take_attempts, with_stream_options,
}
use wcs_transfer.Base.{List}
use wcs_transfer.Entity.{ModelRoute}
use wcs_transfer.Json.{Fields}
use wcs_transfer.Log.{ChatLogState}
use wcs_transfer.Routing.{RouterState, ProxyAttempt, build_proxy_attempts}
use wcs_transfer.Proxy.{Endpoint}

module _ (endpoint : Endpoint) (env : Services) where
  -- After the attempts are built.
  unfoldable pub prepare :
      Request → ModelRoute → Fields → List ProxyAttempt → ChatLogState → Checked Prepared
  prepare request route payload attempts s =
      and_then (check_payload endpoint env route.model payload s) (λ s₁ rewritten.
        and_then (check_reserve endpoint env request.client_key rewritten route.model s₁)
          (λ s₂ u. encode_payload endpoint env route attempts rewritten s₂))

  -- Before they are: the route, with the payload that was read.
  unfoldable pub choose_route : Options → Request → ChatLogState → Checked (ModelRoute × Fields)
  choose_route options request s =
      and_then (read_request endpoint env options request s) (λ s₁ read.
        and_then (check_client_key endpoint env request.client_key read.1 s₁) (λ s₂ u.
          and_then
            (find_route endpoint env options read.1 (read_stream_flag endpoint env read.0 s₂))
            (λ s₃ route. passed s₃ (route, with_stream_options endpoint env read.0))))

  abbrev pub with_attempts :
      RouterState
      → Options
      → Request
      → Checked (ModelRoute × Fields)
      → RouterState × Checked Prepared
  with_attempts router options request (refused s f) = (router, refused s f)
  with_attempts router options request (panicked s) = (router, panicked s)
  with_attempts router options request (passed s (route, payload)) =
      let (router', built) = build_proxy_attempts router route options.ignore_key_health env.now in
      (
        router',
        and_then (take_attempts endpoint env route built s)
            (λ s' attempts. prepare request route payload attempts s'),
      )

  unfoldable pub preflight :
      RouterState → Options → Request → ChatLogState → RouterState × Checked Prepared
  preflight router options request s =
      with_attempts router options request (choose_route options request s)
