-- ===== src/Examples/Requests.antt =====
-- Requests from arrival to debit, at concrete inputs.
use wcs_transfer.Base.{
  ◌+◌, is_positive, ◌≡◌, refl, inr, true, some, [], arith, ℤ, pos, ◌+ℤ◌, ◌*ℤ◌, ◌/ℤ◌, codes, lookup,
}
use wcs_transfer.Examples.{
  small_model, two_keys, fresh_router, owner_key, one_wallet, chat_payload, services, no_options,
  chat_request, start, upstream_with, no_write_error,
}
use wcs_transfer.Proxy.{chat_completions, embeddings, Response}
use wcs_transfer.Checks.{refused, panicked, passed, Prepared, Checked}
use wcs_transfer.Preflight.{preflight}
use wcs_transfer.Preflight.Admitted.{IsAdmitted, preflight-IsAdmitted}
use wcs_transfer.Routing.{RouterState}
use wcs_transfer.Respond.{is_streaming_response, send_response, proxied}
use wcs_transfer.Serve.{serve, Handled}
use wcs_transfer.Serve.Charges.{Settles, serve-Settles}
use wcs_transfer.RequestLog.{Books, write_request_log, start_log}
use wcs_transfer.Wallet.Safety.{all_run, IsCovered}
use wcs_transfer.Wallet.{UsageDebit, owner_wallet, deduct_user_wallet_usage}
use wcs_transfer.Wallet.Ledger.{Agrees, drift, ledger_net}
use wcs_transfer.Wallet.Laws.{deduct}
use wcs_transfer.Preflight.Kept.{log_of}
use wcs_transfer.Billing.{amounts_for_usage}
use wcs_transfer.Billing.Bounds.{HasPrices}
use wcs_transfer.Serve.Payable.{IsEstimated, preflight-payable}
use wcs_transfer.Entity.{Money}
use wcs_transfer.Json.{end, field, obj, num}
use wcs_transfer.Checks.{Services}

abbrev books : Books
books = record { request_logs = []; wallets = one_wallet }

-- Every body is read as a payload that reports usage.
abbrev reporting : Services
reporting = record services {
  decode = λ body. some (
      field (codes "usage")
        (obj (
          field (codes "prompt_tokens") (num (pos 3) 0) (
            field (codes "completion_tokens") (num (pos 4) 0)
              (field (codes "total_tokens") (num (pos 7) 0) end))))
        chat_payload);
}

abbrev charged : Handled
charged =
    serve chat_completions reporting (upstream_with (pos 200)) no_write_error fresh_router
      no_options chat_request start

charged_lem : charged.log.billable_amount ≡ pos 250000
unfolding wcs_transfer.Log.apply_usage wcs_transfer.Log.int_from_any
    wcs_transfer.Billing.estimate_tokens wcs_transfer.Respond.is_streaming_response
    wcs_transfer.Respond.send_body wcs_transfer.Respond.send_response wcs_transfer.Serve.after_loop
    wcs_transfer.Serve.forward wcs_transfer.Serve.after_preflight wcs_transfer.Serve.serve
    wcs_transfer.Checks.read_request wcs_transfer.Checks.check_client_key
    wcs_transfer.Checks.find_route wcs_transfer.Checks.take_attempts
    wcs_transfer.Checks.rewrite_payload wcs_transfer.Checks.check_payload
    wcs_transfer.Checks.required_reserve wcs_transfer.Checks.check_reserve
    wcs_transfer.Checks.encode_payload wcs_transfer.Preflight.prepare
    wcs_transfer.Preflight.choose_route wcs_transfer.Preflight.preflight
    wcs_transfer.Payload.extract_stream_flag wcs_transfer.Access.client_key_allows_model
    wcs_transfer.Access.client_key_budget_exceeded wcs_transfer.Proxy.goes_on
    wcs_transfer.Proxy.after_response wcs_transfer.Proxy.attempt_step
    wcs_transfer.Proxy.attempt_loop wcs_transfer.Routing.sort_keys wcs_transfer.Routing.filter_keys
    wcs_transfer.Routing.healthy_first wcs_transfer.Routing.ordered_keys
    wcs_transfer.Routing.last_key wcs_transfer.Routing.primary_attempts
    wcs_transfer.Routing.attempts_of wcs_transfer.Routing.build_proxy_attempts
    wcs_transfer.Routing.apply_chat_route_options wcs_transfer.KeyHealth.current
    wcs_transfer.Billing.amounts_for_usage wcs_transfer.Billing.apply_reserve_policy
    wcs_transfer.Billing.reserved_completion wcs_transfer.Billing.estimate_prompt_tokens
    wcs_transfer.Billing.estimate_chat_reserve_amount wcs_transfer.Json.set_field lookup ◌+ℤ◌ ◌*ℤ◌
    ◌/ℤ◌
charged_lem = refl

serve-Settles_example :
    Settles
      (pos 5)
      (some (pos 1))
      charged
      one_wallet
      (write_request_log (some (pos 1)) all_run (pos 3) charged.log books).wallets
unfolding start_log
serve-Settles_example =
    serve-Settles chat_completions reporting (upstream_with (pos 200)) no_write_error fresh_router
      no_options chat_request start (some (pos 1)) all_run (pos 3) books refl

abbrev prepared_of : Checked Prepared → Prepared
prepared_of (passed s p) = p
prepared_of (refused s f) = record {
  route = two_keys;
  attempts = [];
  payload = end;
  rewritten_body = [];
}
prepared_of (panicked s) = record {
  route = two_keys;
  attempts = [];
  payload = end;
  rewritten_body = [];
}

abbrev outcome : RouterState × Checked Prepared
outcome = preflight chat_completions services fresh_router no_options chat_request start

abbrev let_through : Prepared
let_through = prepared_of outcome.1

outcome_passed : outcome ≡ (outcome.0, passed (log_of outcome.1) let_through)
unfolding wcs_transfer.Billing.estimate_tokens wcs_transfer.Respond.is_streaming_response
    wcs_transfer.Checks.read_request wcs_transfer.Checks.check_client_key
    wcs_transfer.Checks.find_route wcs_transfer.Checks.take_attempts
    wcs_transfer.Checks.rewrite_payload wcs_transfer.Checks.check_payload
    wcs_transfer.Checks.required_reserve wcs_transfer.Checks.check_reserve
    wcs_transfer.Checks.encode_payload wcs_transfer.Preflight.prepare
    wcs_transfer.Preflight.choose_route wcs_transfer.Preflight.preflight
    wcs_transfer.Payload.extract_stream_flag wcs_transfer.Access.client_key_allows_model
    wcs_transfer.Access.client_key_budget_exceeded wcs_transfer.Routing.sort_keys
    wcs_transfer.Routing.filter_keys wcs_transfer.Routing.healthy_first
    wcs_transfer.Routing.ordered_keys wcs_transfer.Routing.last_key wcs_transfer.Routing.attempts_of
    wcs_transfer.Routing.build_proxy_attempts wcs_transfer.Routing.apply_chat_route_options
    wcs_transfer.KeyHealth.current wcs_transfer.Billing.amounts_for_usage
    wcs_transfer.Billing.apply_reserve_policy wcs_transfer.Billing.reserved_completion
    wcs_transfer.Billing.estimate_prompt_tokens wcs_transfer.Billing.estimate_chat_reserve_amount
    wcs_transfer.Json.set_field lookup ◌+ℤ◌ ◌*ℤ◌ ◌/ℤ◌
outcome_passed = refl

preflight-IsAdmitted_example :
    IsAdmitted chat_completions services chat_request (log_of outcome.1) let_through
preflight-IsAdmitted_example =
    preflight-IsAdmitted chat_completions services fresh_router outcome.0 no_options chat_request
      start (log_of outcome.1) let_through outcome_passed

let_through_model : let_through.route ≡ two_keys
unfolding wcs_transfer.Billing.estimate_tokens wcs_transfer.Respond.is_streaming_response
    wcs_transfer.Checks.read_request wcs_transfer.Checks.check_client_key
    wcs_transfer.Checks.find_route wcs_transfer.Checks.take_attempts
    wcs_transfer.Checks.rewrite_payload wcs_transfer.Checks.check_payload
    wcs_transfer.Checks.required_reserve wcs_transfer.Checks.check_reserve
    wcs_transfer.Checks.encode_payload wcs_transfer.Preflight.prepare
    wcs_transfer.Preflight.choose_route wcs_transfer.Preflight.preflight
    wcs_transfer.Payload.extract_stream_flag wcs_transfer.Access.client_key_allows_model
    wcs_transfer.Access.client_key_budget_exceeded wcs_transfer.Routing.sort_keys
    wcs_transfer.Routing.filter_keys wcs_transfer.Routing.healthy_first
    wcs_transfer.Routing.ordered_keys wcs_transfer.Routing.last_key wcs_transfer.Routing.attempts_of
    wcs_transfer.Routing.build_proxy_attempts wcs_transfer.Routing.apply_chat_route_options
    wcs_transfer.KeyHealth.current wcs_transfer.Billing.amounts_for_usage
    wcs_transfer.Billing.apply_reserve_policy wcs_transfer.Billing.reserved_completion
    wcs_transfer.Billing.estimate_prompt_tokens wcs_transfer.Billing.estimate_chat_reserve_amount
    wcs_transfer.Json.set_field lookup ◌+ℤ◌ ◌*ℤ◌ ◌/ℤ◌
let_through_model = refl

small_prices : HasPrices small_model
small_prices = record {
  cost_input = omega arith;
  cost_output = omega arith;
  sale_input = omega arith;
  sale_output = omega arith;
}

within : IsEstimated services let_through (pos 1) (pos 50)
unfolding wcs_transfer.Billing.estimate_tokens wcs_transfer.Respond.is_streaming_response
    wcs_transfer.Checks.read_request wcs_transfer.Checks.check_client_key
    wcs_transfer.Checks.find_route wcs_transfer.Checks.take_attempts
    wcs_transfer.Checks.rewrite_payload wcs_transfer.Checks.check_payload
    wcs_transfer.Checks.required_reserve wcs_transfer.Checks.check_reserve
    wcs_transfer.Checks.encode_payload wcs_transfer.Preflight.prepare
    wcs_transfer.Preflight.choose_route wcs_transfer.Preflight.preflight
    wcs_transfer.Payload.extract_stream_flag wcs_transfer.Access.client_key_allows_model
    wcs_transfer.Access.client_key_budget_exceeded wcs_transfer.Routing.sort_keys
    wcs_transfer.Routing.filter_keys wcs_transfer.Routing.healthy_first
    wcs_transfer.Routing.ordered_keys wcs_transfer.Routing.last_key wcs_transfer.Routing.attempts_of
    wcs_transfer.Routing.build_proxy_attempts wcs_transfer.Routing.apply_chat_route_options
    wcs_transfer.KeyHealth.current wcs_transfer.Billing.amounts_for_usage
    wcs_transfer.Billing.apply_reserve_policy wcs_transfer.Billing.reserved_completion
    wcs_transfer.Billing.estimate_prompt_tokens wcs_transfer.Billing.estimate_chat_reserve_amount
    wcs_transfer.Json.set_field lookup ◌+ℤ◌ ◌*ℤ◌ ◌/ℤ◌
within = record {
  prompt_nonneg = omega arith;
  completion_nonneg = omega arith;
  prompt_within = omega arith;
  completion_within = omega arith;
}

abbrev bill : UsageDebit
bill = record {
  client_api_key_id = pos 5;
  request_log_id = pos 1;
  total_tokens = pos 51;
  reserved_amount = pos 0;
  cost_amount = pos 0;
  billable_amount = (amounts_for_usage (pos 1) (pos 50) let_through.route.model).1;
}

still :
    (user_id : ℤ) (before : Money)
    → owner_wallet one_wallet (pos 5) ≡ some (user_id, before)
    → before ≡ pos 1000000000000000
unfolding lookup
still user_id before e = ground (arith, e)

agreeing : Agrees 0 one_wallet
unfolding lookup ledger_net ◌+ℤ◌
agreeing user_id m e = (ground (arith, e), ground (arith, e))

some_bill : is_positive bill.billable_amount ≡ true
unfolding wcs_transfer.Billing.estimate_tokens wcs_transfer.Respond.is_streaming_response
    wcs_transfer.Checks.read_request wcs_transfer.Checks.check_client_key
    wcs_transfer.Checks.find_route wcs_transfer.Checks.take_attempts
    wcs_transfer.Checks.rewrite_payload wcs_transfer.Checks.check_payload
    wcs_transfer.Checks.required_reserve wcs_transfer.Checks.check_reserve
    wcs_transfer.Checks.encode_payload wcs_transfer.Preflight.prepare
    wcs_transfer.Preflight.choose_route wcs_transfer.Preflight.preflight
    wcs_transfer.Payload.extract_stream_flag wcs_transfer.Access.client_key_allows_model
    wcs_transfer.Access.client_key_budget_exceeded wcs_transfer.Routing.sort_keys
    wcs_transfer.Routing.filter_keys wcs_transfer.Routing.healthy_first
    wcs_transfer.Routing.ordered_keys wcs_transfer.Routing.last_key wcs_transfer.Routing.attempts_of
    wcs_transfer.Routing.build_proxy_attempts wcs_transfer.Routing.apply_chat_route_options
    wcs_transfer.KeyHealth.current wcs_transfer.Billing.amounts_for_usage
    wcs_transfer.Billing.apply_reserve_policy wcs_transfer.Billing.reserved_completion
    wcs_transfer.Billing.estimate_prompt_tokens wcs_transfer.Billing.estimate_chat_reserve_amount
    wcs_transfer.Json.set_field lookup ◌+ℤ◌ ◌*ℤ◌ ◌/ℤ◌
some_bill = refl

preflight-payable_example :
    IsCovered (deduct bill) one_wallet
    × Agrees (0 + drift) (deduct_user_wallet_usage all_run one_wallet bill).0
preflight-payable_example =
    preflight-payable services fresh_router outcome.0 no_options chat_request owner_key start
      (log_of outcome.1) let_through refl refl outcome_passed (rw let_through_model small_prices)
      (rw let_through_model (inr (omega arith))) (pos 1) (pos 50) all_run one_wallet bill within
      refl still some_bill 0 agreeing

abbrev broken : Response
broken = record {
  status = pos 200;
  content_type = codes "application/json";
  body = record { chunks = []; read_error = some (codes "EOF") };
}
