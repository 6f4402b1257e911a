-- ===== src/Examples.antt =====
-- Concrete data for the examples: two keys, a model, a route, a log, wallets, an upstream.
pub mod Money
pub mod Polling
pub mod Callers
pub mod Forms
pub mod Keyrings
pub mod Debugging
pub mod Catalogs
pub mod SignIns
pub mod Sessions
pub mod Tasks
pub mod Cooldowns
pub mod Gemini
pub mod GeminiRequests
pub mod Keys
pub mod Requests
use wcs_transfer.Base.{ℕ, true, false, Option, none, some, [], ◌∷◌, ℤ, pos, Text, codes}
use wcs_transfer.Entity.{Model, ModelRoute, ProviderKey, ClientApiKey}
use wcs_transfer.Json.{num, Fields, end, field, str, arr, cons, nil}
use wcs_transfer.Log.{ChatLogState}
use wcs_transfer.Wallet.{Wallets, LedgerEntry, credit, admin}
use wcs_transfer.Routing.{RouterState}
use wcs_transfer.Proxy.{Upstream, Response, response, Trace}
use wcs_transfer.Checks.{Options, Request, Services, found}
use wcs_transfer.RequestLog.{start_log}

abbrev pub key : ℤ → ℤ → ProviderKey
key id priority = record {
  id = id;
  name = codes "key";
  api_key = codes "secret";
  health_status = [];
  cooldown_reason = [];
  cooldown_until = none;
  weight = pos 1;
  priority = priority;
}

abbrev pub first_key : ProviderKey
first_key = key (pos 1) (pos 20)

abbrev pub second_key : ProviderKey
second_key = key (pos 2) (pos 10)

abbrev pub small_model : Model
small_model = record {
  public_name = codes "small";
  upstream_model = codes "small-1";
  route_strategy = codes "failover";
  max_tokens = pos 100;
  temperature = pos 0;
  timeout_seconds = pos 0;
  cost_input_per_1m = pos 1;
  cost_output_per_1m = pos 2;
  sale_input_per_1m = pos 3;
  sale_output_per_1m = pos 4;
  reserve_multiplier = pos 20000;
  reserve_min_amount = pos 0;
}

abbrev pub two_keys : ModelRoute
two_keys = record {
  model = small_model;
  provider = record {
    id = pos 7;
    slug = codes "up";
    provider_type = codes "openai";
    base_url = codes "http://up";
    extra_config = [];
  };
  keys = first_key ∷ second_key ∷ [];
}

abbrev pub fresh_router : RouterState
fresh_router = record { counters = []; key_health = [] }

abbrev pub owner_key : ClientApiKey
owner_key = record {
  id = pos 5;
  user_id = pos 9;
  user_email = codes "owner@example.com";
  name = codes "owner";
  masked_key = codes "owner";
  plain_api_key = [];
  status = codes "active";
  description = [];
  user_wallet_balance = pos 1000000000000000;
  user_min_avail_balance = pos 0;
  rpm_limit = pos 2;
  daily_request_limit = pos 0;
  daily_token_limit = pos 0;
  daily_cost_limit = pos 0;
  monthly_cost_limit = pos 0;
  warning_threshold = pos 8000;
  allowed_model_ids = pos 1 ∷ [];
  allowed_models = codes "small" ∷ [];
  cost_usage = none;
  expires_at = none;
  last_used_at = none;
}

-- What filled the wallet.
abbrev pub first_payment : LedgerEntry
first_payment = record {
  user_id = pos 9;
  direction = credit;
  amount = pos 1000000000000000;
  balance_before = pos 0;
  balance_after = pos 1000000000000000;
  operator_type = admin;
  operator_user_id = pos 1;
  request_log_id = pos 0;
  total_tokens = pos 0;
  reserved_amount = pos 0;
  cost_amount = pos 0;
  billable_amount = pos 0;
}

abbrev pub one_wallet : Wallets
one_wallet = record {
  balances = (pos 9, pos 1000000000000000) ∷ [];
  owners = (pos 5, pos 9) ∷ [];
  ledger = first_payment ∷ [];
}

-- A decoder that reads every text as one payload.
abbrev pub chat_payload : Fields
chat_payload =
    field (codes "model") (str (codes "small"))
      (field (codes "messages") (arr (cons (str (codes "hello there")) nil)) end)

abbrev pub services : Services
services = record {
  store_configured = true;
  resolve_model_route = λ name. found two_keys;
  decode = λ body. some chat_payload;
  encode = λ payload. some (codes "encoded");
  number_text = λ m e. codes "1";
  integer = λ m. num m 0;
  temperature = λ m. num m 1;
  format_amount = λ m. codes "0.0000";
  now = pos 1000;
}

abbrev pub no_options : Options
no_options = record {
  request_body = [];
  route_strategy = [];
  provider_key_id = pos 0;
  ignore_key_health = false;
}

abbrev pub chat_request : Request
chat_request = record { body = some (codes "body"); client_key = some owner_key }

abbrev pub start : ChatLogState
start = start_log (codes "trace") (codes "chat_completions") (some owner_key)

abbrev pub answer_with : ℤ → Response
answer_with status = record {
  status = status;
  content_type = codes "application/json";
  body = record { chunks = codes "{}" ∷ []; read_error = none };
}

-- Every attempt is answered with this status.
abbrev pub upstream_with : ℤ → Upstream
upstream_with status = record {
  request_valid = true;
  send = λ i k. response (answer_with status);
  clock = λ i. pos 2000;
}

abbrev pub no_write_error : ℕ → Option Text
no_write_error i = none

abbrev pub empty_trace : Trace
empty_trace = record {
  key_health = [];
  provider_key_id = pos 0;
  failover_count = 0;
  retry_count = 0;
  attempt_metadata = [];
}
