-- ===== src/RequestLog.antt =====
-- The request log: its row, and the debit that follows it
-- (backend/internal/api/openai/handler.go: `writeRequestLog`). The query that inserts the row is an
-- argument: it gives an id or fails. The row here has the amounts as they were computed, of which its
-- columns keep eight decimals.
use wcs_transfer.Base.{
  false, ◌&&◌, Option, none, some, List, [], ◌∷◌, ◌++◌, if◌then◌else◌, ℤ, pos, is_positive, Text,
  trim_space,
}
use wcs_transfer.Entity.{ClientApiKey}
use wcs_transfer.Log.{ChatLogState}
use wcs_transfer.Wallet.{Wallets, Runs, UsageDebit, deduct_user_wallet_usage}

-- The tables of request logs and of wallets.
pub record Books : Type 0 where
  pub request_logs : List ChatLogState
  pub wallets : Wallets

abbrev pub debit_of : ℤ → ChatLogState → UsageDebit
debit_of request_log_id s = record {
  client_api_key_id = s.client_api_key_id;
  request_log_id = request_log_id;
  total_tokens = s.total_tokens;
  reserved_amount = s.reserved_amount;
  cost_amount = s.cost_amount;
  billable_amount = s.billable_amount;
}

-- `writeRequestLog`, where the insertion gives an id or fails, and the latency was measured.
unfoldable pub write_request_log : Option ℤ → Runs → ℤ → ChatLogState → Books → Books
write_request_log none runs measured s books = books
write_request_log (some request_log_id) runs measured s books =
    let latency = if is_positive s.latency_ms then s.latency_ms else measured in
    let logged = record books {
      request_logs = books.request_logs ++ (record s { latency_ms = latency } ∷ []);
    } in
    if s.success && is_positive s.client_api_key_id && is_positive s.billable_amount
    then record logged {
      wallets = (deduct_user_wallet_usage runs books.wallets (debit_of request_log_id s)).0;
    }
    else logged

-- The log that a handler starts with.
unfoldable pub start_log : Text → Text → Option ClientApiKey → ChatLogState
start_log trace_id request_type client_key = record {
  trace_id = trim_space trace_id;
  request_type = request_type;
  model_public_name = [];
  upstream_model = [];
  provider_id = pos 0;
  provider_key_id = pos 0;
  client_api_key_id = elim client_key [ none ↦ pos 0 | some key ↦ key.id ];
  client_api_key_name = elim client_key [ none ↦ [] | some key ↦ key.name ];
  http_status = pos 0;
  success = false;
  latency_ms = pos 0;
  prompt_tokens = pos 0;
  completion_tokens = pos 0;
  total_tokens = pos 0;
  reserved_amount = pos 0;
  cost_amount = pos 0;
  billable_amount = pos 0;
  error_type = [];
  error_message = [];
  metadata = record {
    stream = false;
    budget_warning = false;
    candidate_key_count = none;
    required_wallet_reserve = none;
    has_usage = none;
    cost_amount = none;
    billable_amount = none;
    failover_count = none;
    retry_count = none;
  };
}
