-- ===== src/Checks/Types.antt =====
-- What the checks of a request take and give (backend/internal/api/openai/handler.go). The model
-- store, the encoder and the decoder of JSON, and the printing of numbers are the fields of
-- `Services`.
use wcs_transfer.Base.{ℕ, Bool, Option, List, ℤ, Text}
use wcs_transfer.Entity.{Time, Money, ModelRoute, ClientApiKey}
use wcs_transfer.Json.{Json, Fields}
use wcs_transfer.Log.{ChatLogState, Decoder}
use wcs_transfer.Routing.{ProxyAttempt}

-- The arguments of `writeJSONError`.
pub record Failure : Type 0 where
  pub status : ℤ
  pub error_type : Text
  pub message : Text

pub data Checked (A : Type 0) : Type 0 where
  refused : ChatLogState → Failure → Checked A
  panicked : ChatLogState → Checked A
  passed : ChatLogState → A → Checked A

abbrev pub fail : {A : Type 0} → ChatLogState → ℤ → Text → Text → Checked A
fail s status error_type message =
    refused s (record { status = status; error_type = error_type; message = message })

abbrev pub and_then : {A B : Type 0} → Checked A → (ChatLogState → A → Checked B) → Checked B
and_then (refused s f) k = refused s f
and_then (panicked s) k = panicked s
and_then (passed s a) k = k s a

pub record Options : Type 0 where
  pub request_body : Text
  pub route_strategy : Text
  pub provider_key_id : ℤ
  pub ignore_key_health : Bool

-- `none` for a body that cannot be read.
pub record Request : Type 0 where
  pub body : Option Text
  pub client_key : Option ClientApiKey

pub data Resolved : Type 0 where
  found : ModelRoute → Resolved
  no_rows : Resolved
  database_error : Text → Resolved

pub record Services : Type 0 where
  pub store_configured : Bool
  pub resolve_model_route : Text → Resolved
  pub decode : Decoder
  pub encode : Fields → Option Text
  pub number_text : ℤ → ℕ → Text
  pub integer : ℤ → Json
  pub temperature : ℤ → Json
  pub format_amount : Money → Text
  pub now : Time

-- What the upstream loop is entered with.
pub record Prepared : Type 0 where
  pub route : ModelRoute
  pub attempts : List ProxyAttempt
  pub payload : Fields
  pub rewritten_body : Text
