-- ===== src/Console.antt =====
-- What the forms of the console share (backend/internal/api/admin/handler.go: `parseResourceID`,
-- `recordAdminAction`, `defaultString` and the guards that the handlers begin with). A body is what
-- gin bound of it, `none` where it refused it; an error is answered with the status 200 and its code.
use wcs_transfer.Base.{
  ℕ, Bool, Option, none, some, if◌then◌else◌, ℤ, is_positive, Text, is_empty, trim_space,
}
use wcs_transfer.ClientKeys.{or_default}
use wcs_transfer.Portal.Debug.{parse_int64, code_invalid_param, code_service_error}
pub mod Keys
pub mod Wallets

-- What is recorded of an administrator's action.
pub record AdminAction : Type 0 where
  pub action : Text
  pub resource_id : ℤ
  pub resource_name : Text

pub data FormAnswer (A : Type 0) : Type 0 where
  error : ℕ → FormAnswer A
  saved : A → AdminAction → FormAnswer A

abbrev pub default_string : Text → Text → Text
default_string value fallback = if is_empty (trim_space value) then fallback else trim_space value

unfoldable pub parse_form_id : Text → Option ℤ
unfolding parse_int64
parse_form_id param = elim (parse_int64 (trim_space param)) [
  | none ↦ none
  | some id ↦ if is_positive id then some id else none
]

abbrev pub acted : Text → ℤ → Text → AdminAction
acted action id name = record { action = action; resource_id = id; resource_name = trim_space name }

-- A handler's guards: the store, the id of an update, the body.
abbrev pub with_form :
    {D F A : Type 0}
    → Bool
    → D
    → Option ℤ
    → Option F
    → (ℤ → F → D × FormAnswer A)
    → D × FormAnswer A
with_form has_store c id body rest =
    if has_store
    then or_default id (c, error code_invalid_param)
        (λ i. or_default body (c, error code_invalid_param) (rest i))
    else (c, error code_service_error)
