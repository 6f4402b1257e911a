-- ===== src/Examples/GeminiRequests.antt =====
-- A Gemini request from its arrival to its log, at concrete inputs.
use wcs_transfer.Base.{◌≡◌, refl, true, some, [], ◌∷◌, pos, codes, ◌+ℤ◌, ◌*ℤ◌, ◌/ℤ◌}
use wcs_transfer.Entity.{ModelRoute}
use wcs_transfer.Json.{str, arr, cons, nil, Fields, end, field}
use wcs_transfer.Log.{ChatLogState}
use wcs_transfer.Checks.{Checked, refused, panicked, passed, Services, found}
use wcs_transfer.RequestLog.{Books, write_request_log, start_log}
use wcs_transfer.Serve.{Handled}
use wcs_transfer.Wallet.Safety.{all_run}
use wcs_transfer.Examples.{
  two_keys, services, no_options, chat_request, fresh_router, upstream_with, no_write_error, start,
  one_wallet,
}
use wcs_transfer.Examples.Gemini.{Client, sdk, used}
use wcs_transfer.Gemini.Admission.{admit_gemini}
use wcs_transfer.Gemini.Admission.Admitted.{IsGeminiAdmitted, admit_gemini-IsGeminiAdmitted}
use wcs_transfer.Gemini.Handler.{handle_gemini_generate_content}
use wcs_transfer.Gemini.Handler.Unbilled.{IsEncodable}
use wcs_transfer.Gemini.Handler.Charges.{handle_gemini_generate_content-Settles}
use wcs_transfer.Serve.Charges.{Settles}
use wcs_transfer.VertexSdk.{Sdk, chunk}

-- A provider of Vertex AI. One decoder reads every text as this payload, which has the project too.
abbrev vertex_route : ModelRoute
vertex_route = record two_keys {
  provider = record (two_keys.provider) {
    provider_type = codes "VertexAI";
    extra_config = codes "config";
  };
}

abbrev gemini_payload : Fields
gemini_payload = field (codes "model") (str (codes "small")) (
    field (codes "contents") (arr (cons (str (codes "hello there")) nil))
      (field (codes "project_id") (str (codes "p")) end))

abbrev vertex_services : Services
vertex_services = record services {
  resolve_model_route = λ name. found vertex_route;
  decode = λ body. some gemini_payload;
}

abbrev admission : Checked (ModelRoute × Fields)
admission = admit_gemini vertex_services no_options chat_request start

abbrev admitted_of : Checked (ModelRoute × Fields) → ModelRoute × Fields
admitted_of (passed s admitted) = admitted
admitted_of (refused s f) = (vertex_route, end)
admitted_of (panicked s) = (vertex_route, end)

abbrev logged : Checked (ModelRoute × Fields) → ChatLogState
logged (passed s admitted) = s
logged (refused s f) = s
logged (panicked s) = s

admission-passed :
    admission ≡ passed (logged admission) ((admitted_of admission).0, (admitted_of admission).1)
unfolding wcs_transfer.Gemini.apply_gemini_generation_defaults wcs_transfer.Gemini.reserved_output
    wcs_transfer.Gemini.estimate_gemini_reserve_amount wcs_transfer.Gemini.Admission.is_vertex_ai
    wcs_transfer.Gemini.Admission.is_gemini wcs_transfer.Gemini.Admission.find_gemini_route
    wcs_transfer.Gemini.Admission.check_gemini_reserve wcs_transfer.Gemini.Admission.prepare_gemini
    wcs_transfer.Gemini.Admission.admit_gemini
    wcs_transfer.VertexAi.non_stream_vertex_ai_sdk_response wcs_transfer.Checks.check_client_key
    wcs_transfer.Access.client_key_allows_model wcs_transfer.Access.client_key_budget_exceeded
    wcs_transfer.Billing.amounts_for_usage wcs_transfer.Billing.apply_reserve_policy
    wcs_transfer.Billing.estimate_prompt_tokens wcs_transfer.Billing.estimate_tokens
    wcs_transfer.Json.set_field wcs_transfer.Json.delete_field ◌+ℤ◌ ◌*ℤ◌ ◌/ℤ◌
admission-passed = refl

admit_gemini-IsGeminiAdmitted_example :
    IsGeminiAdmitted vertex_services chat_request
      (logged admission)
      (admitted_of admission).0
      (admitted_of admission).1
admit_gemini-IsGeminiAdmitted_example =
    admit_gemini-IsGeminiAdmitted vertex_services no_options chat_request start (logged admission)
      (admitted_of admission).0 (admitted_of admission).1 admission-passed

-- An SDK that streams one chunk.
abbrev streaming : Sdk Client
streaming = record sdk {
  generate_content_stream = λ client model payload. chunk (used (pos 2)) ∷ [];
}

abbrev streamed : Handled
streamed =
    (handle_gemini_generate_content vertex_services streaming (upstream_with (pos 200))
      no_write_error true fresh_router [] no_options chat_request start).1

abbrev books : Books
books = record { request_logs = []; wallets = one_wallet }

encodable : IsEncodable streaming
encodable client model payload g e = cc

handle_gemini_generate_content-Settles_example :
    Settles
      (pos 5)
      (some (pos 1))
      streamed
      one_wallet
      (write_request_log (some (pos 1)) all_run (pos 3) streamed.log books).wallets
unfolding start_log
handle_gemini_generate_content-Settles_example =
    handle_gemini_generate_content-Settles vertex_services streaming (upstream_with (pos 200))
      no_write_error encodable true fresh_router [] no_options chat_request start (some (pos 1))
      all_run (pos 3) books refl
