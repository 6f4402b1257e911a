-- ===== src/Console/Keys.antt =====
-- The form of the console for a client key (backend/internal/api/admin/handler.go:
-- `UpdateClientAPIKey`). The code that `writeDatabaseError` reads off the store's error is an
-- argument.
use wcs_transfer.Base.{
  ℕ, Bool, Option, none, some, List, if◌then◌else◌, ℤ, pos, eqb_ℤ, Text, codes, is_empty,
  trim_space,
}
use wcs_transfer.Entity.{Time, Money, ClientApiKey}
pub mod Disabled
use wcs_transfer.ClientKeys.{Tables, Session, KeyResult, found, Given, normalize_int64_ids}
use wcs_transfer.ClientKeys.Writes.{KeyInput, update_client_api_key}
use wcs_transfer.Portal.{parse_expires_at}
use wcs_transfer.Portal.Debug.{code_invalid_param}
use wcs_transfer.Console.{FormAnswer, error, saved, default_string, parse_form_id, acted, with_form}

pub record UpdateKeyForm : Type 0 where
  pub name : Text
  pub status : Text
  pub description : Text
  pub rpm_limit : ℤ
  pub daily_request_limit : ℤ
  pub daily_token_limit : ℤ
  pub daily_cost_limit : Money
  pub monthly_cost_limit : Money
  pub warning_threshold : ℤ
  pub allowed_model_ids : List ℤ
  pub expires_at : Option Text

-- A threshold of 80 percent is 8000 units. An update has no user.
abbrev pub update_input : UpdateKeyForm → Option Time → KeyInput
update_input form expires_at = record {
  user_id = pos 0;
  name = trim_space form.name;
  status = default_string form.status (codes "active");
  description = trim_space form.description;
  rpm_limit = form.rpm_limit;
  daily_request_limit = form.daily_request_limit;
  daily_token_limit = form.daily_token_limit;
  daily_cost_limit = form.daily_cost_limit;
  monthly_cost_limit = form.monthly_cost_limit;
  warning_threshold =
      if eqb_ℤ form.warning_threshold (pos 0) then pos 8000 else form.warning_threshold;
  allowed_model_ids = normalize_int64_ids form.allowed_model_ids;
  expires_at = expires_at;
}

module _ (code_of : KeyResult → ℕ) (parse_time : Text → Option Time) (has_store : Bool)
    (given : Given) (session : Session) (t : Tables) where
  unfoldable pub key_answer : Tables × KeyResult → Tables × FormAnswer ClientApiKey
  key_answer (t', found item) =
      (t', saved item (acted (codes "client_key.update") item.id item.name))
  key_answer (t', result) = (t', error (code_of result))

  unfoldable pub update_client_api_key_form :
      Text → Option UpdateKeyForm → Tables × FormAnswer ClientApiKey
  unfolding key_answer update_client_api_key parse_form_id
  update_client_api_key_form param body =
      with_form has_store t (parse_form_id param) body (λ id form.
        elim (parse_expires_at parse_time form.expires_at) [
          | none ↦ (t, error code_invalid_param)
          | some expires_at ↦
              let input = update_input form expires_at in
              if is_empty input.name
              then (t, error code_invalid_param)
              else key_answer (update_client_api_key given session t id input)
        ])
