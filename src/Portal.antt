-- ===== src/Portal.antt =====
-- The client keys in the users' portal (backend/internal/api/tenant/handler.go: `CreateClientKey`,
-- `RenameClientKey`, `DisableClientKey`, `ListClientKeys`, `parseResourceID`, `writeError`,
-- `statusToCode`; backend/internal/middleware/tenant_user_auth.go: `TenantUserAuth`).
--
-- A body is what gin bound of it, `none` where it refused it. Errors are answered with the status
-- 200 and a code of backend/internal/apierror.
use wcs_transfer.Base.{
  ℕ, ◌+◌, ◌*◌, ◌-◌, ◌^◌, Bool, not, ◌&&◌, Option, none, some, List, [], ◌∷◌, ◌==◌, leb,
  if◌then◌else◌, ℤ, pos, ◌-ℤ◌, is_positive, Text, codes, is_empty, trim_space, cut_prefix,
}
use wcs_transfer.Entity.{Time, ClientApiKey}
use wcs_transfer.Tokens.{Codec, UserClaims, user_kind, Parsed, accepted, parse_token}
use wcs_transfer.ClientKeys.{Tables, Session, KeyResult, found, failed, no_rows, Given, or_default}
use wcs_transfer.ClientKeys.Writes.{
  KeyInput, create_client_api_key, disable_user_client_api_key, rename_user_client_api_key,
  list_user_client_api_keys,
}
pub mod Changes
pub mod Debug
pub mod Isolation
pub mod Shut

pub data Message : Type 0 where
  says : Text → Message
  err_of : KeyResult → Message
  query_error : Message

pub data Answer : Type 0 where
  error : ℕ → Message → Answer
  created : ClientApiKey → Answer
  item : ClientApiKey → Answer
  items : List ClientApiKey → Answer

unfoldable pub status_to_code : ℕ → ℕ
status_to_code http_status =
    if http_status == 401
    then 1001
    else (if http_status == 403
        then 1002
        else (if http_status == 400
            then 1003
            else (if http_status == 404
                then 2001
                else (if http_status == 409
                    then 2003
                    else (if http_status == 503 then 3001 else 3003)))))

unfoldable pub write_error : ℕ → Message → Answer
unfolding status_to_code
write_error status_code message = error (status_to_code status_code) message

-- A request that is aborted, with its code, or whose context has the claims.
pub data UserAuth : Type 0 where
  aborted : ℕ → UserAuth
  authenticated : UserClaims → UserAuth

abbrev pub trim_prefix : Text → Text → Text
trim_prefix prefix s = or_default (cut_prefix prefix s) s (λ rest. rest)

abbrev pub claims_or_abort : Parsed UserClaims → UserAuth
claims_or_abort (accepted claims) = authenticated claims
claims_or_abort _ = aborted 1001

-- The service is its codec and its secret; one of `none` is nil.
unfoldable pub tenant_user_auth : Option (Codec UserClaims × Text) → ℤ → Text → UserAuth
tenant_user_auth none now authorization = aborted 3001
tenant_user_auth (some (codec, secret)) now authorization =
    let token = trim_space (trim_prefix (codes "Bearer ") authorization) in
    if is_empty token
    then aborted 1001
    else claims_or_abort (parse_token codec user_kind secret now token)

abbrev is_digit : ℕ → Bool
is_digit c = leb 48 c && leb c 57

-- The number that the leading digits write, after those read before.
unfoldable pub decimal : ℕ → Text → ℕ
decimal n [] = n
decimal n (c ∷ s) = let rest = decimal (10 * n + (c - 48)) s in if is_digit c then rest else n

-- The digits of `fmt.Sscanf` with `%d`, up to the largest number that is allowed.
abbrev scan_digits : ℕ → Text → Option ℕ
scan_digits largest [] = none
scan_digits largest (c ∷ s) =
    let n = decimal 0 (c ∷ s) in if is_digit c && leb n largest then some n else none

unfoldable pub scan_int64 : Text → Option ℤ
unfolding decimal
scan_int64 [] = none
scan_int64 (c ∷ s) =
    if c == 43
    then or_default (scan_digits (2 ^ 63 - 1) s) none (λ n. some (pos n))
    else (if c == 45
        then or_default (scan_digits (2 ^ 63) s) none (λ n. some (pos 0 -ℤ pos n))
        else or_default (scan_digits (2 ^ 63 - 1) (c ∷ s)) none (λ n. some (pos n)))

-- `none` is an error. A number that is not positive is 0 without an error.
unfoldable pub parse_resource_id : Text → Option ℤ
unfolding scan_int64
parse_resource_id value = elim (scan_int64 (trim_space value)) [
  | none ↦ none
  | some id ↦ if is_positive id then some id else some (pos 0)
]

pub record CreateClientKeyRequest : Type 0 where
  pub name : Text
  pub description : Text
  pub expires_at : Option Text

-- What a handler runs with: whether there is a store, the store's session, the random bytes of a
-- new key, and `time.Parse` of RFC 3339.
pub record Portal : Type 0 where
  pub has_key_store : Bool
  pub session : Session
  pub random : Option Text
  pub parse_time : Text → Option Time

-- The two guards that the handlers begin with; `none` is a context without claims.
abbrev pub with_user : Portal → Tables → Option ℤ → (ℤ → Tables × Answer) → Tables × Answer
with_user portal t user rest =
    if portal.has_key_store
    then or_default user (t, write_error 401 (says (codes "unauthorized"))) rest
    else (t, write_error 503 (says (codes "user key store is not configured")))

abbrev pub or_error : ℕ → (ClientApiKey → Answer) → Tables × KeyResult → Tables × Answer
or_error status answer (t, found key) = (t, answer key)
or_error status answer (t, failed stage) = (t, write_error status (err_of (failed stage)))
or_error status answer (t, no_rows) = (t, write_error status (err_of no_rows))

abbrev pub portal_input : ℤ → CreateClientKeyRequest → Option Time → KeyInput
portal_input user_id request expires_at = record {
  user_id = user_id;
  name = trim_space request.name;
  status = codes "active";
  description = trim_space request.description;
  rpm_limit = pos 0;
  daily_request_limit = pos 0;
  daily_token_limit = pos 0;
  daily_cost_limit = pos 0;
  monthly_cost_limit = pos 0;
  warning_threshold = pos 8000;
  allowed_model_ids = [];
  expires_at = expires_at;
}

-- `none` is a time that is not RFC 3339, `some none` no time.
abbrev pub parse_expires_at : (Text → Option Time) → Option Text → Option (Option Time)
parse_expires_at parse_time none = some none
parse_expires_at parse_time (some text) =
    if is_empty (trim_space text)
    then some none
    else or_default (parse_time (trim_space text)) none (λ time. some (some time))

module _ (given : Given) (portal : Portal) (t : Tables) (user : Option ℤ) where
  unfoldable pub create_client_key : Option CreateClientKeyRequest → Tables × Answer
  unfolding create_client_api_key write_error
  create_client_key body = with_user portal t user (λ user_id. elim body [
    | none ↦ (t, write_error 400 (says (codes "invalid request body")))
    | some request ↦ elim (parse_expires_at portal.parse_time request.expires_at) [
      | none ↦ (t, write_error 400 (says (codes "expires_at must be RFC3339")))
      | some expires_at ↦ or_error 400 created (
          create_client_api_key given portal.session portal.random t
            (portal_input user_id request expires_at))
    ]
  ])

  unfoldable pub rename_client_key : Text → Option Text → Tables × Answer
  unfolding parse_resource_id rename_user_client_api_key write_error
  rename_client_key id body = with_user portal t user (λ user_id. elim (parse_resource_id id) [
    | none ↦ (t, write_error 400 (says (codes "invalid key id")))
    | some key_id ↦ elim body [
      | none ↦ (t, write_error 400 (says (codes "name is required")))
      | some name ↦
          or_error 400 item
            (rename_user_client_api_key given portal.session t user_id key_id (trim_space name))
    ]
  ])

  unfoldable pub disable_client_key : Text → Tables × Answer
  unfolding parse_resource_id disable_user_client_api_key write_error
  disable_client_key id = with_user portal t user (λ user_id. elim (parse_resource_id id) [
    | none ↦ (t, write_error 400 (says (codes "invalid key id")))
    | some key_id ↦
        or_error 400 item (disable_user_client_api_key given portal.session t user_id key_id)
  ])

  unfoldable pub list_client_keys : Tables × Answer
  unfolding list_user_client_api_keys write_error
  list_client_keys = with_user portal t user (λ user_id. (
    t,
    or_default (list_user_client_api_keys given portal.session t user_id)
        (write_error 500 query_error) items,
  ))

-- The requests about client keys, and their handlers.
pub data Request : Type 0 where
  create : Option CreateClientKeyRequest → Request
  rename : Text → Option Text → Request
  disable : Text → Request
  list : Request

unfoldable pub handle : Given → Portal → Tables → Option ℤ → Request → Tables × Answer
unfolding create_client_key rename_client_key disable_client_key list_client_keys
handle given portal t user (create body) = create_client_key given portal t user body
handle given portal t user (rename id body) = rename_client_key given portal t user id body
handle given portal t user (disable id) = disable_client_key given portal t user id
handle given portal t user list = list_client_keys given portal t user

-- A request of a user whose token was accepted.
pub record Visit : Type 0 where
  pub portal : Portal
  pub user_id : ℤ
  pub request : Request

-- The tables after requests that come one after the other.
abbrev pub after_visits : Given → Tables → List Visit → Tables
after_visits given t [] = t
after_visits given t (v ∷ visits) =
    after_visits given (handle given v.portal t (some v.user_id) v.request).0 visits
