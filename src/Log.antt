-- ===== src/Log.antt =====
-- The log of a request, `chatLogState` of backend/internal/api/openai/handler.go, and what the code
-- reads from upstream bodies into it. The payloads that are stored beside it are left out; of the
-- metadata there are the entries that the code computes, and not those that repeat a setting.
-- The decoder of `encoding/json` is an argument: `none` is a text that is no JSON object.
use wcs_transfer.Base.{
  ℕ, Bool, true, not, Option, none, some, List, [], ◌∷◌, if◌then◌else◌, ℤ, pos, ◌+ℤ◌, wrap_int64,
  is_positive, Text, codes, is_empty, trim_space,
}
use wcs_transfer.Entity.{Money, Model}
use wcs_transfer.Json.{
  Json, null, bool, num, str, arr, obj, Fields, get_field, as_object, as_text, truncate,
}
use wcs_transfer.Billing.{amounts_for_usage}

pub record Metadata : Type 0 where
  pub stream : Bool
  pub budget_warning : Bool
  pub candidate_key_count : Option ℕ
  pub required_wallet_reserve : Option Money
  pub has_usage : Option Bool
  pub cost_amount : Option Money
  pub billable_amount : Option Money
  pub failover_count : Option ℕ
  pub retry_count : Option ℕ

pub record ChatLogState : Type 0 where
  pub trace_id : Text
  pub request_type : Text
  pub model_public_name : Text
  pub upstream_model : Text
  pub provider_id : ℤ
  pub provider_key_id : ℤ
  pub client_api_key_id : ℤ
  pub client_api_key_name : Text
  pub http_status : ℤ
  pub success : Bool
  pub latency_ms : ℤ
  pub prompt_tokens : ℤ
  pub completion_tokens : ℤ
  pub total_tokens : ℤ
  pub reserved_amount : Money
  pub cost_amount : Money
  pub billable_amount : Money
  pub error_type : Text
  pub error_message : Text
  pub metadata : Metadata

abbrev pub Decoder : Type 0
Decoder = Text → Option Fields

unfoldable pub int_from_any : Option Json → ℤ
unfolding truncate
int_from_any (some (num m e)) = truncate m e
int_from_any (some null) = pos 0
int_from_any (some (bool b)) = pos 0
int_from_any (some (str s)) = pos 0
int_from_any (some (arr xs)) = pos 0
int_from_any (some (obj fs)) = pos 0
int_from_any none = pos 0

-- The state with the amounts of its own tokens.
abbrev pub priced : Model → ChatLogState → ChatLogState
priced model s =
    let (cost, billable) = amounts_for_usage s.prompt_tokens s.completion_tokens model in
    record s {
      cost_amount = cost;
      billable_amount = billable;
      metadata = record (s.metadata) { cost_amount = some cost; billable_amount = some billable };
    }

-- `payload["usage"].(map[string]any)`
abbrev pub usage_of : Fields → Option Fields
usage_of payload = as_object (get_field (codes "usage") payload)

abbrev pub with_usage : Model → Fields → ChatLogState → ChatLogState
with_usage model usage s = priced model (record s {
  prompt_tokens = int_from_any (get_field (codes "prompt_tokens") usage);
  completion_tokens = int_from_any (get_field (codes "completion_tokens") usage);
  total_tokens = int_from_any (get_field (codes "total_tokens") usage);
  metadata = record (s.metadata) { has_usage = some true };
})

unfoldable pub apply_usage : Decoder → Model → Text → ChatLogState → ChatLogState
apply_usage decode model response_body s = elim (decode response_body) [
  | none ↦ s
  | some payload ↦ elim (usage_of payload) [ none ↦ s | some usage ↦ with_usage model usage s ]
]

-- `updateAnthropicUsage`, in anthropic.go: a count that is not positive keeps the one before.
unfoldable pub update_anthropic_usage : Model → Fields → ChatLogState → ChatLogState
update_anthropic_usage model usage s =
    let input = int_from_any (get_field (codes "input_tokens") usage) in
    let output = int_from_any (get_field (codes "output_tokens") usage) in
    let prompt = if is_positive input then input else s.prompt_tokens in
    let completion = if is_positive output then output else s.completion_tokens in
    let total = wrap_int64 (prompt +ℤ completion) in
    priced model (record s {
      prompt_tokens = prompt;
      completion_tokens = completion;
      total_tokens = total;
      metadata = record (s.metadata) { has_usage = some (is_positive total) };
    })

abbrev pub update_if : Model → Option Fields → ChatLogState → ChatLogState
update_if model none s = s
update_if model (some usage) s = update_anthropic_usage model usage s

abbrev pub message_usage : Fields → Option Fields
message_usage payload = elim (as_object (get_field (codes "message") payload)) [
  | none ↦ none
  | some message ↦ usage_of message
]

-- `applyAnthropicUsage`, in anthropic.go
unfoldable pub apply_anthropic_usage : Decoder → Model → Text → ChatLogState → ChatLogState
apply_anthropic_usage decode model response_body s = elim (decode response_body) [
  | none ↦ s
  | some payload ↦ update_if model (usage_of payload) (update_if model (message_usage payload) s)
]

-- `applyGeminiUsage`, in gemini.go
abbrev pub with_gemini_usage : Model → Fields → ChatLogState → ChatLogState
with_gemini_usage model usage s =
    let prompt = int_from_any (get_field (codes "promptTokenCount") usage) in
    let completion = int_from_any (get_field (codes "candidatesTokenCount") usage) in
    let given = int_from_any (get_field (codes "totalTokenCount") usage) in
    let total = if is_positive given then given else wrap_int64 (prompt +ℤ completion) in
    priced model (record s {
      prompt_tokens = prompt;
      completion_tokens = completion;
      total_tokens = total;
      metadata = record (s.metadata) { has_usage = some (is_positive total) };
    })

unfoldable pub apply_gemini_usage : Decoder → Model → Text → ChatLogState → ChatLogState
apply_gemini_usage decode model response_body s = elim (decode response_body) [
  | none ↦ s
  | some payload ↦ elim (as_object (get_field (codes "usageMetadata") payload)) [
    | none ↦ s
    | some usage ↦ with_gemini_usage model usage s
  ]
]

abbrev pub no_message : Text
no_message = codes "upstream returned a non-success response"

unfoldable pub extract_error_message : Decoder → Text → Text
unfolding trim_space
extract_error_message decode response_body = elim (decode response_body) [
  | none ↦ no_message
  | some payload ↦ elim (as_object (get_field (codes "error") payload)) [
    | none ↦ no_message
    | some error ↦ elim (as_text (get_field (codes "message") error)) [
      | none ↦ no_message
      | some message ↦ if is_empty (trim_space message) then no_message else trim_space message
    ]
  ]
]

-- `extractAnthropicErrorType`, in anthropic.go
unfoldable pub extract_anthropic_error_type : Decoder → Text → Text
unfolding trim_space
extract_anthropic_error_type decode response_body = elim (decode response_body) [
  | none ↦ []
  | some payload ↦ elim (as_object (get_field (codes "error") payload)) [
    | none ↦ []
    | some error ↦ elim (as_text (get_field (codes "type") error)) [
      | none ↦ []
      | some error_type ↦ trim_space error_type
    ]
  ]
]

-- `firstNonEmpty`
unfoldable pub first_non_empty : List Text → Text
unfolding trim_space
first_non_empty [] = []
first_non_empty (value ∷ values) =
    if not (is_empty (trim_space value)) then trim_space value else first_non_empty values
