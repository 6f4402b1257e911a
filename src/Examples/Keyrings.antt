-- ===== src/Examples/Keyrings.antt =====
-- Client keys, at concrete inputs.
use wcs_transfer.Base.{
  ◌≡◌, refl, true, false, none, some, List, [], ◌∷◌, pos, Text, codes, trim_space, ◌+ℤ◌, is_empty,
}
use wcs_transfer.Entity.{ClientApiKey}
use wcs_transfer.Access.{client_key_budget_exceeded}
use wcs_transfer.Auth.{KeyFields, extract_client_api_key, public_api_auth}
use wcs_transfer.Auth.Payers.{IsPayer, context_key, status_of}
use wcs_transfer.ClientKeys.{KeyRow, Tables, Session, KeyResult, found, Given, or_default}
use wcs_transfer.ClientKeys.Writes.{KeyInput, create_client_api_key, disable_user_client_api_key}
use wcs_transfer.ClientKeys.Authenticate.{authenticate_client_api_key, key_of}
use wcs_transfer.ClientKeys.Authenticate.RoundTrip.{create-authenticate}
use wcs_transfer.ClientKeys.Authenticate.Admits.{
  IsAdmitted, authenticates, public_api_auth-IsAdmitted,
}
use wcs_transfer.Portal.{Portal, create, rename, disable, Visit, after_visits}
use wcs_transfer.Portal.Isolation.{own, after_visits-own}
use wcs_transfer.Portal.Shut.{disabled-refused}
use wcs_transfer.Examples.{owner_key}

abbrev pub plain : Given
plain = record { sha256_hex = λ s. s; name_before = λ a b. true }

abbrev pub at_noon : Session
at_noon = record { now = pos 100; day_start = pos 50; month_start = pos 10; runs = λ stage. true }

-- A user with 5 on the wallet, a model, and 3 billed today to the key 1.
abbrev at_start : Tables
at_start = record {
  keys = [];
  next_id = 1;
  access = [];
  users =
      record {
        id = pos 9;
        email = codes "o";
        status = codes "active";
        wallet_balance = pos 5;
        min_available_balance = pos 0;
      }
      ∷ [];
  models = (pos 1, codes "small") ∷ [];
  spent = record { client_api_key_id = 1; created_at = pos 60; billable_amount = pos 3 } ∷ [];
}

abbrev wanted : KeyInput
wanted = record {
  user_id = pos 9;
  name = codes "n";
  status = codes "active";
  description = [];
  rpm_limit = pos 0;
  daily_request_limit = pos 0;
  daily_token_limit = pos 0;
  daily_cost_limit = pos 2;
  monthly_cost_limit = pos 0;
  warning_threshold = pos 8000;
  allowed_model_ids = pos 1 ∷ pos 1 ∷ [];
  expires_at = some (pos 200);
}

abbrev pub made : Tables × KeyResult
made = create_client_api_key plain at_noon (some (codes "ab")) at_start wanted

abbrev made_item : ClientApiKey
made_item = or_default (key_of made.1) owner_key (λ k. k)

make_lem : made ≡ (made.0, found made_item)
unfolding wcs_transfer.ClientKeys.nullable_int64 wcs_transfer.ClientKeys.normalize_int64_ids
    wcs_transfer.ClientKeys.Writes.create_client_api_key trim_space
make_lem = refl

create-authenticate_example :
    (key : ClientApiKey) × ((authenticate_client_api_key plain at_noon made.0
        made_item.plain_api_key).1
      ≡ found key)
    × (key.id ≡ made_item.id)
    × (key.user_id ≡ made_item.user_id)
    × (key.allowed_models ≡ made_item.allowed_models)
unfolding wcs_transfer.ClientKeys.nullable_int64
    wcs_transfer.ClientKeys.Authenticate.authenticate_client_api_key
create-authenticate_example =
    create-authenticate plain at_noon at_noon (codes "ab") at_start made.0 wanted made_item make_lem
      refl refl refl refl refl

abbrev pub secret : Text
secret = codes "wcs_live_ab"

abbrev let_in : ClientApiKey
let_in = or_default (authenticates plain at_noon made.0 secret) owner_key (λ k. k)

let_in_lem : (authenticate_client_api_key plain at_noon made.0 secret).1 ≡ found let_in
unfolding wcs_transfer.ClientKeys.nullable_int64 wcs_transfer.ClientKeys.normalize_int64_ids
    wcs_transfer.ClientKeys.Writes.create_client_api_key
    wcs_transfer.ClientKeys.Authenticate.authenticate_client_api_key trim_space
let_in_lem = refl

-- The daily limit of 2 is reached.
over_budget : client_key_budget_exceeded let_in ≡ some (codes "client daily cost budget exceeded")
unfolding wcs_transfer.ClientKeys.nullable_int64 wcs_transfer.ClientKeys.normalize_int64_ids
    wcs_transfer.ClientKeys.Writes.create_client_api_key
    wcs_transfer.ClientKeys.Authenticate.authenticate_client_api_key
    wcs_transfer.KeyCosts.build_client_cost_usage wcs_transfer.Access.client_key_budget_exceeded
    trim_space ◌+ℤ◌
over_budget = refl

abbrev pub in_header : KeyFields
in_header = record { query_key = []; goog_api_key = []; x_api_key = secret; authorization = [] }

goes_on_lem :
    context_key (public_api_auth (some (authenticates plain at_noon made.0)) true in_header).0
    ≡ some let_in
unfolding wcs_transfer.ClientKeys.nullable_int64 wcs_transfer.ClientKeys.normalize_int64_ids
    wcs_transfer.ClientKeys.Writes.create_client_api_key
    wcs_transfer.ClientKeys.Authenticate.authenticate_client_api_key
    wcs_transfer.Auth.public_api_auth trim_space
goes_on_lem = refl

public_api_auth-IsAdmitted_example :
    (is_empty (trim_space (extract_client_api_key in_header)) ≡ false)
    × IsPayer let_in
    × (row : KeyRow) × IsAdmitted plain at_noon made.0 (extract_client_api_key in_header) row
    × (let_in.id ≡ pos row.id)
public_api_auth-IsAdmitted_example =
    public_api_auth-IsAdmitted plain at_noon made.0 true in_header let_in goes_on_lem

abbrev portal : Portal
portal = record {
  has_key_store = true;
  session = at_noon;
  random = some (codes "cd");
  parse_time = λ text. none;
}

-- Another user makes a key and tries to rename and to disable the key 1.
abbrev intrusions : List Visit
intrusions =
    record {
      portal = portal;
      user_id = pos 8;
      request = create (some (record { name = codes "x"; description = []; expires_at = none }));
    }
    ∷ record { portal = portal; user_id = pos 8; request = rename (codes "1") (some (codes "y")) }
    ∷ record { portal = portal; user_id = pos 8; request = disable (codes "1") }
    ∷ []

after_visits-own_example :
    own (pos 9) (after_visits plain made.0 intrusions).keys ≡ own (pos 9) made.0.keys
after_visits-own_example =
    after_visits-own plain (pos 9) made.0 intrusions (refl, (refl, (refl, tt)))

-- The user disables the key, and makes another.
abbrev pub second_key : List Visit
second_key =
    record {
      portal = portal;
      user_id = pos 9;
      request = create (some (record { name = codes "x"; description = []; expires_at = none }));
    }
    ∷ record { portal = portal; user_id = pos 9; request = rename (codes "1") (some (codes "z")) }
    ∷ []

abbrev disabled_item : ClientApiKey
disabled_item =
    or_default (key_of (disable_user_client_api_key plain at_noon made.0 (pos 9) (pos 1)).1)
      owner_key (λ k. k)

disabled-refused_example :
    status_of
      (public_api_auth
        (some (
          authenticates plain at_noon (
            after_visits plain
              (disable_user_client_api_key plain at_noon made.0 (pos 9) (pos 1)).0
              second_key)))
        true
        in_header).0
    ≡ 401
unfolding wcs_transfer.ClientKeys.nullable_int64 wcs_transfer.ClientKeys.normalize_int64_ids
    wcs_transfer.ClientKeys.Writes.create_client_api_key
    wcs_transfer.ClientKeys.Writes.disable_user_client_api_key wcs_transfer.Auth.public_api_auth
    trim_space
disabled-refused_example =
    disabled-refused plain at_noon made.0 (pos 9) (pos 1) in_header disabled_item second_key at_noon
      true refl ((λ e. refl), tt) refl
