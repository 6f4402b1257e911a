-- ===== src/Portal/Debug.antt =====
-- The portal's route for trying a key out, POST /portal/client-keys/:id/debug/chat/completions, up
-- to the handler that it passes the request on to (backend/internal/router/router.go).
use wcs_transfer.Base.{
  ℕ, ◌^◌, ◌-◌, Bool, true, false, not, ◌&&◌, Option, none, some, List, [], ◌∷◌, ◌==◌, leb,
  if◌then◌else◌, ℤ, pos, ◌-ℤ◌, is_positive, Text, codes, text_eq, is_empty, trim_space, to_lower,
}
use wcs_transfer.Entity.{Model, ModelRoute, ProviderKey, ClientApiKey}
use wcs_transfer.Json.{
  Json, null, bool, num, str, arr, obj, Items, nil, cons, Fields, end, field, get_field, set_field,
  delete_field, as_text,
}
use wcs_transfer.Log.{Decoder}
use wcs_transfer.Access.{equal_fold}
use wcs_transfer.Checks.{Resolved}
use wcs_transfer.Checks
use wcs_transfer.ClientKeys.{Tables, Session, found, failed, no_rows, Given, or_default}
use wcs_transfer.ClientKeys.Writes.{get_user_client_api_key_by_id}
use wcs_transfer.Portal.{decimal}
pub mod Handed
pub mod Expired

-- The codes of backend/internal/apierror.
abbrev pub code_unauthorized : ℕ
code_unauthorized = 1001

abbrev pub code_invalid_param : ℕ
code_invalid_param = 1003

abbrev pub code_invalid_body : ℕ
code_invalid_body = 1004

abbrev pub code_not_found : ℕ
code_not_found = 2001

abbrev pub code_invalid_state : ℕ
code_invalid_state = 2002

abbrev pub code_service_error : ℕ
code_service_error = 3001

abbrev pub code_routing_error : ℕ
code_routing_error = 3002

abbrev pub code_internal_error : ℕ
code_internal_error = 3003

unfoldable pub all_digits : Text → Bool
all_digits [] = true
all_digits (c ∷ s) = leb 48 c && leb c 57 && all_digits s

abbrev pub whole_digits : ℕ → Text → Option ℕ
whole_digits largest s =
    if not (is_empty s) && all_digits s && leb (decimal 0 s) largest
    then some (decimal 0 s)
    else none

-- `strconv.ParseInt` with the base 10 and 64 bits.
unfoldable pub parse_int64 : Text → Option ℤ
unfolding all_digits decimal
parse_int64 [] = none
parse_int64 (c ∷ s) =
    if c == 43
    then or_default (whole_digits (2 ^ 63 - 1) s) none (λ n. some (pos n))
    else (if c == 45
        then or_default (whole_digits (2 ^ 63) s) none (λ n. some (pos 0 -ℤ pos n))
        else or_default (whole_digits (2 ^ 63 - 1) (c ∷ s)) none (λ n. some (pos n)))

pub record DebugRequest : Type 0 where
  pub model : Text
  pub provider_type : Text
  pub stream : Bool

-- `encoding/json` into the request's struct, into a map and back, and the store's lookup of a route.
pub record Debug : Type 0 where
  pub read_request : Text → Option DebugRequest
  pub decode : Decoder
  pub encode : Fields → Option Text
  pub resolve_model_route : Text → Resolved

pub data DebugHandler : Type 0 where
  messages gemini_generate_content gemini_stream_generate_content chat_completions : DebugHandler

-- An error with its code, or the handler with the key in its context and the body it reads.
pub data DebugAnswer : Type 0 where
  answered : ℕ → DebugAnswer
  handed : DebugHandler → ClientApiKey → Text → DebugAnswer

unfoldable pub normalize_type : Text → Text
normalize_type pt =
    let kind = to_lower (trim_space pt) in
    if text_eq kind (codes "vertexai")
    then codes "gemini"
    else (if text_eq kind (codes "openai_compatible") then codes "openai" else kind)

abbrev pub text_or_empty : Option Json → Text
text_or_empty value = or_default (as_text value) [] (λ s. s)

abbrev pub role_of : Fields → Text
role_of m =
    let role = text_or_empty (get_field (codes "role") m) in
    if equal_fold role (codes "assistant") then codes "model" else role

-- The messages of OpenAI as the contents of Gemini; what is no object is left out.
unfoldable pub contents_of : Items → Items
unfolding get_field
contents_of nil = nil
contents_of (cons (obj m) rest) =
    cons
      (obj (
        field (codes "role") (str (role_of m)) (
          field (codes "parts")
            (arr (
              cons
                (obj
                  (field (codes "text") (str (text_or_empty (get_field (codes "content") m))) end))
                nil))
            end)))
      (contents_of rest)
contents_of (cons null rest) = contents_of rest
contents_of (cons (bool b) rest) = contents_of rest
contents_of (cons (num m e) rest) = contents_of rest
contents_of (cons (str s) rest) = contents_of rest
contents_of (cons (arr items) rest) = contents_of rest

abbrev pub with_contents : Fields → Fields
with_contents full = elim (get_field (codes "messages") full) [
  | none ↦ full
  | some raw ↦ elim raw [
    | arr msgs ↦
        delete_field (codes "messages") (set_field (codes "contents") (arr (contents_of msgs)) full)
    | null ↦ full
    | bool b ↦ full
    | num m e ↦ full
    | str s ↦ full
    | obj fs ↦ full
  ]
]

abbrev pub no_keys : List ProviderKey → Bool
no_keys [] = true
no_keys (k ∷ keys) = false

abbrev pub resolved_route : (ModelRoute → DebugAnswer) → Resolved → DebugAnswer
resolved_route rest (Checks.found route) = rest route
resolved_route rest Checks.no_rows = answered code_not_found
resolved_route rest (Checks.database_error message) = answered code_internal_error

module _ (d : Debug) where
  abbrev pub encoded_or : Text → Fields → Text
  encoded_or body full = or_default (d.encode full) body (λ patched. patched)

  unfoldable pub anthropic_body : Model → Text → Text
  unfolding get_field set_field
  anthropic_body model body =
      if is_positive model.max_tokens
      then body
      else or_default (d.decode body) body (λ full. elim (get_field (codes "max_tokens") full) [
        | none ↦ encoded_or body (set_field (codes "max_tokens") (num (pos 4096) 0) full)
        | some given ↦ body
      ])

  unfoldable pub gemini_body : Text → Text
  unfolding contents_of delete_field
  gemini_body body = or_default (d.decode body) body (λ full.
      encoded_or body
        (delete_field (codes "provider_type") (delete_field (codes "stream") (with_contents full))))

  unfoldable pub hand_over : ClientApiKey → DebugRequest → ModelRoute → Text → DebugAnswer
  unfolding normalize_type anthropic_body gemini_body
  hand_over key req route body =
      let kind = normalize_type route.provider.provider_type in
      if text_eq kind (codes "anthropic")
      then handed messages key (anthropic_body route.model body)
      else (if text_eq kind (codes "gemini")
          then handed
              (if req.stream then gemini_stream_generate_content else gemini_generate_content) key
              (gemini_body body)
          else handed chat_completions key body)

  unfoldable pub check_route : ClientApiKey → DebugRequest → Text → ModelRoute → DebugAnswer
  unfolding hand_over
  check_route key req body route =
      if no_keys route.keys
        && not (equal_fold (trim_space route.provider.provider_type) (codes "vertexai"))
      then answered code_routing_error
      else (if text_eq (normalize_type req.provider_type)
            (normalize_type route.provider.provider_type)
          then hand_over key req route body
          else answered code_invalid_param)

  unfoldable pub check_request : ClientApiKey → Text → DebugAnswer
  unfolding check_route
  check_request key body = elim (d.read_request body) [
    | none ↦ answered code_invalid_param
    | some req ↦
        if is_empty req.model
        then answered code_invalid_param
        else (if is_empty req.provider_type
            then answered code_invalid_param
            else resolved_route (check_route key req body) (d.resolve_model_route req.model))
  ]

  -- The user is `none` in a context without claims; the body is `none` where it cannot be read.
  unfoldable pub debug_chat_completions :
      Given → Session → Tables → Option ℤ → Text → Option Text → DebugAnswer
  unfolding parse_int64 get_user_client_api_key_by_id check_request
  debug_chat_completions given session t none id body = answered code_unauthorized
  debug_chat_completions given session t (some user_id) id body = elim (parse_int64 id) [
    | none ↦ answered code_invalid_param
    | some key_id ↦ elim (get_user_client_api_key_by_id given session t user_id key_id) [
      | no_rows ↦ answered code_not_found
      | failed stage ↦ answered code_internal_error
      | found key ↦
          if text_eq key.status (codes "active")
          then or_default body (answered code_invalid_body) (check_request key)
          else answered code_invalid_state
    ]
  ]
