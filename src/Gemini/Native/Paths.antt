-- ===== src/Gemini/Native/Paths.antt =====
-- Which paths reach a method, and with what payload (backend/internal/api/openai/gemini.go:
-- `GeminiNativeAPI`).
use wcs_transfer.Base.{
  ℕ, suc, ◌≡◌, refl, ap, inr, Bool, false, none, some, [], ◌∷◌, ◌++◌, ◌==◌, arith, take, drop,
  length, All, Text, codes, text_eq, is_empty,
}
use wcs_transfer.Json.{str, Fields, get_field, set_field, get_field-set_field}
use wcs_transfer.Log.{Decoder}
use wcs_transfer.Gemini.Native.{
  colon, last_index, split_last, split_action, Method, generate_content, stream_generate_content,
  read_body, dispatch, gemini_native_api,
}

abbrev pub name_of : Method → Text
name_of generate_content = codes "generateContent"
name_of stream_generate_content = codes "streamGenerateContent"

last_index-none : (c : ℕ) (s : Text) → All (λ a. (a == c) ≡ false) s → last_index c s ≡ none
unfolding last_index
last_index-none c [] h = refl
last_index-none c (a ∷ s) (ne, h) = rw (last_index-none c s h, ne)

last_index-append :
    (c : ℕ) (s t : Text)
    → All (λ a. (a == c) ≡ false) t
    → last_index c (s ++ (c ∷ t)) ≡ some (length s)
unfolding last_index
last_index-append c [] t h = rw (last_index-none c t h) (ground arith)
last_index-append c (a ∷ s) t h = rw (last_index-append c s t h)

take-length : (s t : Text) → take (length s) (s ++ t) ≡ s
take-length [] t = refl
take-length (a ∷ s) t = ap (◌∷◌ a) (take-length s t)

drop-length : (s : Text) (c : ℕ) (t : Text) → drop (suc (length s)) (s ++ (c ∷ t)) ≡ t
drop-length [] c t = refl
drop-length (a ∷ s) c t = drop-length s c t

pub split_last-append :
    (model method : Text)
    → is_empty model ≡ false
    → All (λ a. (a == colon) ≡ false) method
    → split_last (model ++ (colon ∷ method)) ≡ some (model, method)
unfolding split_last
split_last-append [] method h plain = cc
split_last-append (a ∷ s) method h plain = ground (
  arith,
  last_index-append colon (a ∷ s) method plain,
  take-length (a ∷ s) (colon ∷ method),
  drop-length (a ∷ s) colon method,
)

name_of-plain : (m : Method) → All (λ a. (a == colon) ≡ false) (name_of m)
name_of-plain generate_content = ground arith
name_of-plain stream_generate_content = ground arith

split_action-append :
    (model : Text) (m : Method)
    → is_empty model ≡ false
    → split_action (codes "/" ++ (model ++ (colon ∷ name_of m))) ≡ some (model, name_of m)
unfolding split_action
split_action-append model m h = split_last-append model (name_of m) h (name_of-plain m)

dispatch-name_of : (m : Method) (payload : Fields) → dispatch (name_of m) payload ≡ inr (m, payload)
dispatch-name_of generate_content payload = refl
dispatch-name_of stream_generate_content payload = refl

-- A path of a model that is not empty, a colon and one of the two methods, with a body that is
-- blank or a JSON object and not `null`, is handed to that method, whatever colons the model has. The payload has
-- the model of the path and otherwise the fields of the body.
pub gemini_native_api-name_of :
    (decode : Decoder) (is_null : Text → Bool) (model : Text) (m : Method) (body : Text)
    (payload : Fields)
    → is_null body ≡ false
    → is_empty model ≡ false
    → read_body decode body ≡ some payload
    → (sent : Fields) × (gemini_native_api decode is_null
          (codes "/" ++ (model ++ (colon ∷ name_of m)))
          (some body)
        ≡ some (inr (m, sent)))
      × (get_field (codes "model") sent ≡ some (str model))
      × ((other : Text)
          → text_eq (codes "model") other ≡ false
          → get_field other sent ≡ get_field other payload)
unfolding gemini_native_api
gemini_native_api-name_of decode is_null model m body payload object h e = (
  set_field (codes "model") (str model) payload,
  ground (
    arith,
    split_action-append model m h,
    dispatch-name_of m (set_field (codes "model") (str model) payload),
  ),
  get_field-set_field (codes "model") (codes "model") (str model) payload,
  λ other ne. ground (arith, ne, get_field-set_field (codes "model") other (str model) payload),
)
