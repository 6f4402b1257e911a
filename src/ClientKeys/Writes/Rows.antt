-- ===== src/ClientKeys/Writes/Rows.antt =====
-- Rows of client keys and the constraints on them
-- (backend/internal/repository/postgres/store.go; backend/migrations).
use wcs_transfer.Base.{
  ℕ, Bool, true, false, not, ◌&&◌, ◌||◌, Option, none, List, [], ◌∷◌, length, leb, ℤ, pos, leb_ℤ,
  Text, codes, text_eq,
}
use wcs_transfer.Entity.{Time, Money}
use wcs_transfer.ClientKeys.{KeyRow, Tables, nullable_int64, user_of, or_default}

-- The input of a creation, and, without the user, of an update.
pub record KeyInput : Type 0 where
  pub user_id : ℤ
  pub name : Text
  pub status : Text
  pub description : Text
  pub rpm_limit : ℤ
  pub daily_request_limit : ℤ
  pub daily_token_limit : ℤ
  pub daily_cost_limit : Money
  pub monthly_cost_limit : Money
  pub warning_threshold : ℤ
  pub allowed_model_ids : List ℤ
  pub expires_at : Option Time

abbrev pub new_row : ℕ → KeyInput → Text → Text → KeyRow
new_row id input key_hash masked_key = record {
  id = id;
  user_id = nullable_int64 input.user_id;
  name = input.name;
  key_hash = key_hash;
  masked_key = masked_key;
  status = input.status;
  description = input.description;
  rpm_limit = input.rpm_limit;
  daily_request_limit = input.daily_request_limit;
  daily_token_limit = input.daily_token_limit;
  daily_cost_limit = input.daily_cost_limit;
  monthly_cost_limit = input.monthly_cost_limit;
  warning_threshold = input.warning_threshold;
  expires_at = input.expires_at;
  last_used_at = none;
}

abbrev pub updated_row : KeyInput → KeyRow → KeyRow
updated_row input row = record row {
  name = input.name;
  status = input.status;
  description = input.description;
  rpm_limit = input.rpm_limit;
  daily_request_limit = input.daily_request_limit;
  daily_token_limit = input.daily_token_limit;
  daily_cost_limit = input.daily_cost_limit;
  monthly_cost_limit = input.monthly_cost_limit;
  warning_threshold = input.warning_threshold;
  expires_at = input.expires_at;
}

abbrev pub nonnegative : ℤ → Bool
nonnegative n = leb_ℤ (pos 0) n

-- The checks of the table on a single row, and the lengths of its columns.
unfoldable pub checks_row : KeyRow → Bool
checks_row row =
    (text_eq row.status (codes "active") || text_eq row.status (codes "disabled"))
    && nonnegative row.rpm_limit
    && nonnegative row.daily_request_limit
    && nonnegative row.daily_token_limit
    && nonnegative row.daily_cost_limit
    && nonnegative row.monthly_cost_limit
    && nonnegative row.warning_threshold
    && leb_ℤ row.warning_threshold (pos 10000)
    && leb (length row.name) 128
    && leb (length row.masked_key) 64

abbrev pub has_hash : Text → List KeyRow → Bool
has_hash key_hash [] = false
has_hash key_hash (row ∷ rows) = text_eq row.key_hash key_hash || has_hash key_hash rows

-- No user, or one that exists.
abbrev pub user_exists : Tables → Option ℤ → Bool
user_exists t user_id =
    or_default user_id true (λ u. or_default (user_of t user_id) false (λ r. true))

-- A row that the constraints let in.
unfoldable pub fits : Tables → KeyRow → Bool
unfolding checks_row
fits t row = checks_row row && not (has_hash row.key_hash t.keys) && user_exists t row.user_id
