-- ===== src/ClientKeys.antt =====
-- The client keys of the store (backend/internal/repository/postgres/store.go): the rows, their
-- secrets, and the reading of a key with its user, its models and what it has spent.
--
-- The tables are PostgreSQL's, with the constraints of backend/migrations: `client_api_keys`, whose
-- ids come from a sequence, `client_api_key_models`, and what is read of `tenant_users`, `models` and
-- `request_logs`. Limits of costs have the decimals that their columns keep.
use wcs_transfer.Base.{
  ℕ, Bool, true, false, not, ◌&&◌, ◌||◌, Option, none, some, List, [], ◌∷◌, ◌++◌, ◌-◌,
  if◌then◌else◌, map, length, take, drop, leb, ℤ, pos, ◌+ℤ◌, leb_ℤ, eqb_ℤ, is_positive, Text, codes,
  trim_space,
}
use wcs_transfer.Entity.{Time, Money, ClientApiKey}
use wcs_transfer.KeyCosts.{build_client_cost_usage}
pub mod Writes
pub mod Authenticate

pub record KeyRow : Type 0 where
  pub id : ℕ
  pub user_id : Option ℤ
  pub name : Text
  pub key_hash : Text
  pub masked_key : Text
  pub status : Text
  pub description : Text
  pub rpm_limit : ℤ
  pub daily_request_limit : ℤ
  pub daily_token_limit : ℤ
  pub daily_cost_limit : Money
  pub monthly_cost_limit : Money
  pub warning_threshold : ℤ
  pub expires_at : Option Time
  pub last_used_at : Option Time

pub record UserRow : Type 0 where
  pub id : ℤ
  pub email : Text
  pub status : Text
  pub wallet_balance : Money
  pub min_available_balance : Money

pub record SpentRow : Type 0 where
  pub client_api_key_id : ℕ
  pub created_at : Time
  pub billable_amount : Money

-- `next_id` is the sequence's, `access` has the pairs of a key and a model, `models` the ids and
-- public names.
pub record Tables : Type 0 where
  pub keys : List KeyRow
  pub next_id : ℕ
  pub access : List (ℕ × ℤ)
  pub users : List UserRow
  pub models : List (ℤ × Text)
  pub spent : List SpentRow

-- The statements and steps that can fail.
pub data Stage : Type 0 where
  generate begin write_key clear_models commit read_key authenticate list_keys : Stage
  write_model : ℤ → Stage

-- The database's clock with the starts of its day and month, and which statements run.
pub record Session : Type 0 where
  pub now : Time
  pub day_start : Time
  pub month_start : Time
  pub runs : Stage → Bool

pub data KeyResult : Type 0 where
  found : ClientApiKey → KeyResult
  failed : Stage → KeyResult
  no_rows : KeyResult

-- The library's hash in hexadecimal, and the database's order of names.
pub record Given : Type 0 where
  pub sha256_hex : Text → Text
  pub name_before : Text → Text → Bool

unfoldable pub hash_client_api_key : Given → Text → Text
hash_client_api_key given value = given.sha256_hex (trim_space value)

unfoldable pub mask_client_key : Text → Text
mask_client_key value =
    let trimmed = trim_space value in
    if leb (length trimmed) 12
    then trimmed
    else take 12 trimmed ++ codes "..." ++ drop (length trimmed - 4) trimmed

-- Of 18 random bytes in hexadecimal: the key, its hash and its mask.
unfoldable pub generate_client_api_key_material : Given → Option Text → Option (Text × Text × Text)
unfolding hash_client_api_key mask_client_key
generate_client_api_key_material given none = none
generate_client_api_key_material given (some suffix) =
    let plain_key = codes "wcs_live_" ++ suffix in
    some (plain_key, hash_client_api_key given plain_key, mask_client_key plain_key)

unfoldable pub nullable_int64 : ℤ → Option ℤ
nullable_int64 value = if is_positive value then some value else none

abbrev pub member : ℤ → List ℤ → Bool
member value [] = false
member value (v ∷ values) = eqb_ℤ v value || member value values

-- The loop of `normalizeInt64IDs`, with the ids it has seen.
unfoldable pub unseen_ids : List ℤ → List ℤ → List ℤ
unseen_ids seen [] = []
unseen_ids seen (value ∷ values) =
    let kept = value ∷ unseen_ids (value ∷ seen) values in
    let rest = unseen_ids seen values in
    if not (is_positive value) then rest else (if member value seen then rest else kept)

unfoldable pub normalize_int64_ids : List ℤ → List ℤ
unfolding unseen_ids
normalize_int64_ids values = unseen_ids [] values

module _ {ℓ} {A : Type ℓ} where
  unfoldable pub find : (A → Bool) → List A → Option A
  find p [] = none
  find p (x ∷ xs) = if p x then some x else find p xs

  unfoldable pub insert_by : (A → A → Bool) → A → List A → List A
  insert_by before x [] = x ∷ []
  insert_by before x (y ∷ ys) =
      let rest = insert_by before x ys in if before y x then y ∷ rest else x ∷ y ∷ ys

  -- `ORDER BY`
  unfoldable pub sort_by : (A → A → Bool) → List A → List A
  unfolding insert_by
  sort_by before [] = []
  sort_by before (x ∷ xs) = insert_by before x (sort_by before xs)

abbrev pub user_of : Tables → Option ℤ → Option UserRow
user_of t none = none
user_of t (some user_id) = find (λ u. eqb_ℤ u.id user_id) t.users

-- The join of a key's pairs with the models.
unfoldable pub models_of : Tables → ℕ → List (ℕ × ℤ) → List (ℤ × Text)
unfolding find
models_of t key_id [] = []
models_of t key_id ((k, model_id) ∷ pairs) =
    let rest = models_of t key_id pairs in
    elim (find (λ m. eqb_ℤ m.0 model_id) t.models) [
      | none ↦ rest
      | some model ↦ if eqb_ℤ (pos k) (pos key_id) then model ∷ rest else rest
    ]

-- The sum of a key's billable amounts, of the rows that pass the test.
unfoldable pub sum_spent : ℕ → (Time → Bool) → List SpentRow → Money
sum_spent key_id p [] = pos 0
sum_spent key_id p (row ∷ rows) =
    let rest = sum_spent key_id p rows in
    if eqb_ℤ (pos row.client_api_key_id) (pos key_id) && p row.created_at
    then row.billable_amount +ℤ rest
    else rest

abbrev pub spent_since : Tables → ℕ → Time → Money
spent_since t key_id start = sum_spent key_id (λ created. leb_ℤ start created) t.spent

abbrev pub or_default {ℓ κ} : {A : Type ℓ} {B : Type κ} → Option A → B → (A → B) → B
or_default none d f = d
or_default (some a) d f = f a

-- The columns of a row, its user and its models.
abbrev pub item_of : Given → Tables → KeyRow → ClientApiKey
item_of given t row =
    let user = user_of t row.user_id in
    let models = models_of t row.id t.access in
    record {
      id = pos row.id;
      user_id = or_default row.user_id (pos 0) (λ u. u);
      user_email = or_default user [] (λ u. u.email);
      name = row.name;
      masked_key = row.masked_key;
      plain_api_key = [];
      status = row.status;
      description = row.description;
      user_wallet_balance = or_default user (pos 0) (λ u. u.wallet_balance);
      user_min_avail_balance = or_default user (pos 0) (λ u. u.min_available_balance);
      rpm_limit = row.rpm_limit;
      daily_request_limit = row.daily_request_limit;
      daily_token_limit = row.daily_token_limit;
      daily_cost_limit = row.daily_cost_limit;
      monthly_cost_limit = row.monthly_cost_limit;
      warning_threshold = row.warning_threshold;
      allowed_model_ids = sort_by (λ a b. leb_ℤ a b) (map (λ m. m.0) models);
      allowed_models = sort_by given.name_before (map (λ m. m.1) models);
      cost_usage = none;
      expires_at = row.expires_at;
      last_used_at = row.last_used_at;
    }

-- `scanClientAPIKey`, of the row that a query answers with and the total it reports.
unfoldable pub scan_client_api_key : Given → Session → Tables → KeyRow → Money → ClientApiKey
scan_client_api_key given session t row total =
    let item = item_of given t row in
    record item {
      cost_usage = some (
          build_client_cost_usage item total (spent_since t row.id session.day_start)
            (spent_since t row.id session.month_start));
    }

abbrev pub has_id : ℤ → KeyRow → Bool
has_id id row = eqb_ℤ (pos row.id) id

unfoldable pub get_client_api_key_by_id : Given → Session → Tables → ℤ → KeyResult
unfolding scan_client_api_key find sum_spent
get_client_api_key_by_id given session t id =
    if session.runs read_key
    then elim (find (has_id id) t.keys) [
      | none ↦ no_rows
      | some row ↦
          found
            (scan_client_api_key given session t row (sum_spent row.id (λ created. true) t.spent))
    ]
    else failed read_key
