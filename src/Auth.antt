-- ===== src/Auth.antt =====
-- Who may call the public endpoints (backend/internal/middleware/public_api_auth.go:
-- `PublicAPIAuth`, `extractClientAPIKey`, `writeAuthRejectionLog`). The store is an argument, as
-- it is for the code; the answer of a rejection is its status and its type.
use wcs_transfer.Base.{
  ℕ, Bool, not, ◌&&◌, Option, none, some, List, [], ◌∷◌, if◌then◌else◌, drop, ℤ, pos, ltb_ℤ, leb_ℤ,
  Text, codes, is_empty, trim_space, to_lower, cut_prefix,
}
use wcs_transfer.Entity.{ClientApiKey, Money}
pub mod Payers

-- Where a request may hold its key: the query and three header fields.
pub record KeyFields : Type 0 where
  pub query_key : Text
  pub goog_api_key : Text
  pub x_api_key : Text
  pub authorization : Text

-- `none` of `cut_prefix` is a header field that does not start with the prefix, in any case.
unfoldable pub bearer_key : Text → Text
bearer_key auth_header =
    if is_empty auth_header
    then []
    else elim (cut_prefix (codes "bearer ") (to_lower auth_header)) [
      | none ↦ []
      | some rest ↦ trim_space (drop 7 auth_header)
    ]

unfoldable pub extract_client_api_key : KeyFields → Text
unfolding bearer_key
extract_client_api_key fields =
    if not (is_empty (trim_space fields.query_key))
    then trim_space fields.query_key
    else (if not (is_empty (trim_space fields.goog_api_key))
        then trim_space fields.goog_api_key
        else (if not (is_empty (trim_space fields.x_api_key))
            then trim_space fields.x_api_key
            else bearer_key (trim_space fields.authorization)))

pub record AuthRejection : Type 0 where
  pub client_api_key_id : ℤ
  pub user_id : ℤ
  pub user_wallet_balance : Money
  pub user_min_avail_balance : Money
  pub http_status : ℕ
  pub error_type : Text
  pub error_message : Text

-- `next` with the key put in the context, or the status and type of an answer.
pub data AuthOutcome : Type 0 where
  next : Option ClientApiKey → AuthOutcome
  abort : ℕ → Text → AuthOutcome

unfoldable pub write_auth_rejection_log : Bool → ClientApiKey → ℕ → Text → Text → List AuthRejection
write_auth_rejection_log has_log_writer client_key http_status error_type message =
    if has_log_writer
    then record {
      client_api_key_id = client_key.id;
      user_id = client_key.user_id;
      user_wallet_balance = client_key.user_wallet_balance;
      user_min_avail_balance = client_key.user_min_avail_balance;
      http_status = http_status;
      error_type = error_type;
      error_message = message;
    }
      ∷ []
    else []

-- The checks on the wallet of a key's user.
unfoldable pub check_wallet : Bool → ClientApiKey → AuthOutcome × List AuthRejection
unfolding write_auth_rejection_log
check_wallet has_log_writer key =
    if ltb_ℤ (pos 0) key.user_id && leb_ℤ key.user_wallet_balance (pos 0)
    then (
      abort 402 (codes "wallet_empty"),
      write_auth_rejection_log has_log_writer key 402 (codes "wallet_empty")
          (codes "wallet balance is empty"),
    )
    else (if ltb_ℤ (pos 0) key.user_id && ltb_ℤ key.user_wallet_balance key.user_min_avail_balance
        then (
          abort 402 (codes "wallet_below_minimum"),
          write_auth_rejection_log has_log_writer key 402 (codes "wallet_below_minimum")
              (codes "wallet balance is below the minimum available balance"),
        )
        else (next (some key), []))

-- A store of `none` is one that is nil; a store answers `none` for a key it does not know.
unfoldable pub public_api_auth :
    Option (Text → Option ClientApiKey) → Bool → KeyFields → AuthOutcome × List AuthRejection
unfolding extract_client_api_key check_wallet
public_api_auth none has_log_writer fields = (next none, [])
public_api_auth (some authenticate_client_api_key) has_log_writer fields =
    let raw_key = extract_client_api_key fields in
    if is_empty (trim_space raw_key)
    then (abort 401 (codes "unauthorized"), [])
    else elim (authenticate_client_api_key raw_key) [
      | none ↦ (abort 401 (codes "unauthorized"), [])
      | some client_key ↦ check_wallet has_log_writer client_key
    ]
