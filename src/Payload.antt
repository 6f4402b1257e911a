-- ===== src/Payload.antt =====
-- The payloads of requests: parsing, the flags read from them, the fields set in them
-- (backend/internal/api/openai/handler.go and anthropic.go).
use wcs_transfer.Base.{
  ◌⊎◌, inl, inr, Bool, true, false, Option, none, some, if◌then◌else◌, Text, codes, is_empty,
  trim_space,
}
use wcs_transfer.Json.{
  Json, null, bool, num, str, arr, obj, nil, cons, Fields, end, field, get_field, set_field,
  as_object, as_text,
}
use wcs_transfer.Log.{Decoder}
use wcs_transfer.Proxy.{Endpoint, chat_completions, embeddings, messages}

-- `extractStreamFlag`
unfoldable pub extract_stream_flag : Fields → Bool
extract_stream_flag payload = elim (get_field (codes "stream") payload) [
  | none ↦ false
  | some raw ↦ elim raw [
    | bool b ↦ b
    | null ↦ false
    | num m e ↦ false
    | str s ↦ false
    | arr xs ↦ false
    | obj fs ↦ false
  ]
]

abbrev pub stream_options : Text
stream_options = codes "stream_options"

abbrev pub include_usage : Text
include_usage = codes "include_usage"

-- `ensureStreamOptionsIncludeUsage`
unfoldable pub ensure_stream_options_include_usage : Fields → Fields
ensure_stream_options_include_usage payload = elim (as_object (get_field stream_options payload)) [
  | none ↦ set_field stream_options (obj (field include_usage (bool true) end)) payload
  | some options ↦
      set_field stream_options (obj (set_field include_usage (bool true) options)) payload
]

-- The check of the field that an endpoint asks for besides the model.
abbrev pub check_required : Endpoint → Fields → Option Text
check_required chat_completions payload = none
check_required embeddings payload = elim (get_field (codes "input") payload) [
  | none ↦ some (codes "input is required")
  | some input ↦ none
]
check_required messages payload = elim (get_field (codes "messages") payload) [
  | none ↦ some (codes "messages is required")
  | some raw ↦ elim raw [
    | arr items ↦ elim items [
      | nil ↦ some (codes "messages must be a non-empty array")
      | cons i rest ↦ none
    ]
    | bool b ↦ some (codes "messages must be a non-empty array")
    | null ↦ some (codes "messages must be a non-empty array")
    | num m e ↦ some (codes "messages must be a non-empty array")
    | str s ↦ some (codes "messages must be a non-empty array")
    | obj fs ↦ some (codes "messages must be a non-empty array")
  ]
]

-- The payload and the model it names, or the error; the check is of the other fields.
abbrev pub parse_with : (Fields → Option Text) → Decoder → Text → Text ⊎ (Fields × Text)
parse_with check decode body = elim (decode body) [
  | none ↦ inl (codes "request body must be valid JSON")
  | some payload ↦ elim (get_field (codes "model") payload) [
    | none ↦ inl (codes "model is required")
    | some raw ↦ elim (as_text (some raw)) [
      | none ↦ inl (codes "model must be a non-empty string")
      | some name ↦
          if is_empty (trim_space name)
          then inl (codes "model must be a non-empty string")
          else (elim (check payload) [
            | some error ↦ inl error
            | none ↦ inr (payload, trim_space name)
          ])
    ]
  ]
]

-- `parseChatCompletionPayload`, `parseEmbeddingsPayload` and `parseAnthropicMessagesPayload`
unfoldable pub parse_payload : Endpoint → Decoder → Text → Text ⊎ (Fields × Text)
parse_payload endpoint = parse_with (check_required endpoint)

abbrev pub set_default : Text → Json → Fields → Fields
set_default name value payload = elim (get_field name payload) [
  | none ↦ set_field name value payload
  | some given ↦ payload
]
