-- ===== src/Gemini.antt =====
-- Requests in the format of Gemini (backend/internal/api/openai/gemini.go): their payload, the
-- settings put into it, their reserve, the version of the API, and the native path
-- `{model}:{method}`.
pub mod Native
pub mod Admission
pub mod Handler
use wcs_transfer.Base.{
  ℕ, ◌⊎◌, Option, none, some, [], ◌∷◌, ◌++◌, ◌==◌, if◌then◌else◌, ℤ, pos, is_positive, Text, codes,
  is_empty, trim_space,
}
use mathlib.Core.List.{reverse}
use wcs_transfer.Entity.{Money, Model}
use wcs_transfer.Json.{
  Json, null, bool, num, str, arr, obj, nil, cons, Fields, end, get_field, set_field, delete_field,
  as_object, as_text,
}
use wcs_transfer.Log.{Decoder}
use wcs_transfer.Billing.{
  amounts_for_usage, apply_reserve_policy, estimate_prompt_tokens, extract_positive_int,
}
use wcs_transfer.Payload.{parse_with, set_default}

-- The check of `contents`.
abbrev pub check_contents : Fields → Option Text
check_contents payload = elim (get_field (codes "contents") payload) [
  | none ↦ some (codes "contents is required")
  | some raw ↦ elim raw [
    | arr items ↦ elim items [
      | nil ↦ some (codes "contents must be a non-empty array")
      | cons i rest ↦ none
    ]
    | str s ↦
        if is_empty (trim_space s)
        then some (codes "contents must be a non-empty string or array")
        else none
    | bool b ↦ some (codes "contents must be a non-empty string or array")
    | null ↦ some (codes "contents must be a non-empty string or array")
    | num m e ↦ some (codes "contents must be a non-empty string or array")
    | obj fs ↦ some (codes "contents must be a non-empty string or array")
  ]
]

unfoldable pub parse_gemini_generate_content_payload : Decoder → Text → Text ⊎ (Fields × Text)
parse_gemini_generate_content_payload = parse_with check_contents

-- The value of `generationConfig`, which is made an object where it is none.
unfoldable pub ensure_gemini_generation_config : Fields → Fields
ensure_gemini_generation_config payload =
    elim (as_object (get_field (codes "generationConfig") payload)) [
      | none ↦ end
      | some config ↦ config
    ]

-- The model's settings where the client set none. The numbers in JSON are arguments.
unfoldable pub apply_gemini_generation_defaults : (ℤ → Json) → (ℤ → Json) → Model → Fields → Fields
unfolding ensure_gemini_generation_config
apply_gemini_generation_defaults temperature integer model payload =
    let config = ensure_gemini_generation_config payload in
    let config₁ =
      if is_positive model.temperature
      then set_default (codes "temperature") (temperature model.temperature) config
      else config in
    let config₂ =
      if is_positive model.max_tokens
      then set_default (codes "maxOutputTokens") (integer model.max_tokens) config₁
      else config₁ in
    set_field (codes "generationConfig") (obj config₂) payload

-- The payload for upstream, without the name of the model.
abbrev pub upstream_payload : (ℤ → Json) → (ℤ → Json) → Model → Fields → Fields
upstream_payload temperature integer model payload =
    apply_gemini_generation_defaults temperature integer model
      (delete_field (codes "model") payload)

-- The completion tokens that a request is reserved for.
unfoldable pub reserved_output : Fields → Model → ℤ
unfolding get_field extract_positive_int
reserved_output payload model =
    let requested : ℤ = elim (as_object (get_field (codes "generationConfig") payload)) [
      | none ↦ pos 0
      | some config ↦ extract_positive_int (get_field (codes "maxOutputTokens") config)
    ] in
    let completion = if is_positive requested then requested else model.max_tokens in
    if is_positive completion then completion else pos 1024

unfoldable pub estimate_gemini_reserve_amount : (ℤ → ℕ → Text) → Fields → Model → Money
estimate_gemini_reserve_amount number_text payload model =
    let prompt_tokens = estimate_prompt_tokens number_text (get_field (codes "contents") payload) in
    apply_reserve_policy (amounts_for_usage prompt_tokens (reserved_output payload model) model).1
      model

-- `strings.Trim(s, "/")`
unfoldable pub trim_left_slashes : Text → Text
trim_left_slashes [] = []
trim_left_slashes (c ∷ s) = if c == b'/' then trim_left_slashes s else c ∷ s

unfoldable pub trim_slashes : Text → Text
unfolding trim_left_slashes
trim_slashes s = reverse (trim_left_slashes (reverse (trim_left_slashes s)))

-- A text of a provider's extra configuration, without the space around it.
abbrev pub configured : Decoder → Text → Text → Option Text
configured decode name extra_config =
    if is_empty (trim_space extra_config) then none else (elim (decode extra_config) [
      | none ↦ none
      | some payload ↦ elim (as_text (get_field name payload)) [
        | none ↦ none
        | some value ↦ if is_empty (trim_space value) then none else some (trim_space value)
      ]
    ])

unfoldable pub gemini_api_version : Decoder → Text → Text
unfolding trim_slashes
gemini_api_version decode extra_config =
    elim (configured decode (codes "gemini_api_version") extra_config) [
      | none ↦ codes "v1beta"
      | some version ↦ trim_slashes version
    ]

-- The path that is appended to the base URL of a provider.
unfoldable pub gemini_upstream_path : Text → Text → Text → Text
unfolding trim_slashes
gemini_upstream_path api_version model method =
    codes "/"
    ++ (trim_slashes api_version
        ++ (codes "/models/" ++ (trim_space model ++ (codes ":" ++ trim_space method))))
