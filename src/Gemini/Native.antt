-- ===== src/Gemini/Native.antt =====
-- Google's native path (backend/internal/api/openai/gemini.go: `GeminiNativeAPI`): the model and
-- the method stand in the path, and the model is put into the body.
pub mod Paths
use wcs_transfer.Base.{
  ℕ, suc, ◌⊎◌, inl, inr, Bool, Option, none, some, [], ◌∷◌, ◌++◌, ◌==◌, if◌then◌else◌, take, drop,
  Text, codes, text_eq, is_empty, trim_space, cut_prefix, pos, ℤ,
}
use wcs_transfer.Json.{str, Fields, end, set_field}
use wcs_transfer.Log.{Decoder}
use wcs_transfer.Checks.{Failure}

abbrev pub colon : ℕ
colon = b':'

-- `strings.LastIndex(action, ":")`
unfoldable pub last_index : ℕ → Text → Option ℕ
last_index c [] = none
last_index c (a ∷ s) = elim (last_index c s) [
  | some i ↦ some (suc i)
  | none ↦ if a == c then some 0 else none
]

-- What stands before the last colon and after it; `none` where nothing stands before it. So the
-- model is not empty, and the test of the source for that is always passed.
unfoldable pub split_last : Text → Option (Text × Text)
unfolding last_index
split_last action = elim (last_index colon action) [
  | none ↦ none
  | some i ↦ if i == 0 then none else some (take i action, drop (suc i) action)
]

-- The path, whose wildcard starts with a slash.
unfoldable pub split_action : Text → Option (Text × Text)
unfolding split_last cut_prefix
split_action param = elim (cut_prefix (codes "/") param) [
  | none ↦ split_last param
  | some action ↦ split_last action
]

pub data Method : Type 0 where
  generate_content stream_generate_content : Method

-- The payload of the body, which may be blank.
abbrev pub read_body : Decoder → Text → Option Fields
read_body decode body = if is_empty (trim_space body) then some end else decode body

-- An answer, or the method with its payload.
abbrev pub Handed : Type 0
Handed = Failure ⊎ (Method × Fields)

abbrev pub dispatch : Text → Fields → Handed
dispatch method payload =
    if text_eq method (codes "streamGenerateContent")
    then inr (stream_generate_content, payload)
    else (if text_eq method (codes "generateContent")
        then inr (generate_content, payload)
        else inl (record {
          status = pos 404;
          error_type = codes "not_found";
          message = codes "unsupported method: " ++ method;
        }))

abbrev pub refuse : ℤ → Text → Text → Option Handed
refuse status error_type message =
    some (inl (record { status = status; error_type = error_type; message = message }))

-- The body is `none` where it cannot be read. `is_null` says whether a body is the JSON `null`,
-- which is decoded into a nil map without an error: the result `none` is the panic of the write to
-- that map.
unfoldable pub gemini_native_api : Decoder → (Text → Bool) → Text → Option Text → Option Handed
unfolding split_action
gemini_native_api decode is_null param body = elim (split_action param) [
  | none ↦ refuse (pos 404) (codes "not_found") (codes "not found")
  | some (model, method) ↦ elim body [
    | none ↦ refuse (pos 400) (codes "invalid_request") (codes "failed to read request body")
    | some read ↦ elim (read_body decode read) [
      | none ↦ refuse (pos 400) (codes "invalid_request") (codes "request body must be valid JSON")
      | some payload ↦
          if is_null read
          then none
          else some (dispatch method (set_field (codes "model") (str model) payload))
    ]
  ]
]
