-- ===== src/Gemini/Handler.antt =====
-- The handler of Gemini requests (backend/internal/api/openai/gemini.go:
-- `handleGeminiGenerateContent`): after the checks, a provider of Vertex AI is called through its
-- SDK, and any other by the loop over its keys.
pub mod Unbilled
pub mod Charges
use wcs_transfer.Base.{ℕ, Bool, Option, none, if◌then◌else◌, Text}
use wcs_transfer.Entity.{ModelRoute}
use wcs_transfer.Json.{Fields}
use wcs_transfer.Log.{ChatLogState}
use wcs_transfer.Routing.{RouterState}
use wcs_transfer.Proxy.{Upstream}
use wcs_transfer.Checks.{Checked, refused, panicked, passed, Options, Request, Services}
use wcs_transfer.Respond.{gemini, write_json_error}
use wcs_transfer.Serve.{Handled, handled, tasks_of, after_preflight}
use wcs_transfer.VertexSdk.{Sdk, Clients}
use wcs_transfer.VertexAi.{handle_with_vertex_ai_sdk}
use wcs_transfer.Gemini.Admission.{is_vertex_ai, admit_gemini, gemini_attempts}

module _ {Client : Type 0} (env : Services) (sdk : Sdk Client) (up : Upstream)
    (write_error : ℕ → Option Text) where
  -- The clients are those that are kept for later requests.
  unfoldable pub after_admission :
      Bool
      → RouterState
      → Clients Client
      → Options
      → Request
      → Checked (ModelRoute × Fields)
      → Clients Client × Handled
  after_admission stream router clients options request (refused s f) =
      (clients, handled request router (write_json_error f s))
  after_admission stream router clients options request (panicked s) = (
    clients,
    record { router = router; log = s; answer = none; tasks = tasks_of request.client_key s },
  )
  after_admission stream router clients options request (passed s (route, payload)) =
      if is_vertex_ai route
      then (let (clients', answered) =
            handle_with_vertex_ai_sdk env sdk write_error stream route payload clients s in
          (clients', handled request router answered))
      else (
        clients,
        after_preflight gemini env up write_error request
            (gemini_attempts env router options route payload s),
      )

  unfoldable pub handle_gemini_generate_content :
      Bool
      → RouterState
      → Clients Client
      → Options
      → Request
      → ChatLogState
      → Clients Client × Handled
  unfolding after_admission
  handle_gemini_generate_content stream router clients options request s =
      after_admission stream router clients options request (admit_gemini env options request s)
