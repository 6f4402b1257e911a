-- ===== src/Examples/Money.antt =====
-- Wallets and prices at concrete inputs.
use wcs_transfer.Base.{
  ◌+◌, ◌*◌, length, map, +ℤ_parts, ◌≡◌, refl, inr, some, List, [], ◌∷◌, arith, ℤ, pos, ◌+ℤ◌, ◌-ℤ◌,
  ◌≤ℤ◌, ◌<ℤ◌, codes, int_eq, lookup,
}
use wcs_transfer.Entity.{Money}
use wcs_transfer.Json.{get_field}
use wcs_transfer.Examples.{small_model, one_wallet, chat_payload, services}
use wcs_transfer.Wallet.{
  Runs, to_four, UsageDebit, admin, done, owner_wallet, deduct_user_wallet_usage,
}
use wcs_transfer.Wallet.Ledger.{Agrees, drift, IsSolvent, SameMoney, ledger_net}
use wcs_transfer.Wallet.Decimals.{half_fourth}
use wcs_transfer.Wallet.Small.{usage, run_calls-small}
use wcs_transfer.Wallet.Laws.{WalletCall, adjust, deduct, call, PostsOne}
use wcs_transfer.Wallet.Safety.{
  all_run, run_calls, run_calls-Agrees, run_calls-IsSolvent, call-PostsOne, deduct_shortfall,
}
use wcs_transfer.Billing.{
  amounts_for_usage, estimate_chat_reserve_amount, estimate_prompt_tokens, reserved_completion,
}
use wcs_transfer.Billing.Bounds.{HasPrices, estimate_chat_reserve_amount_covers}

abbrev use_it : Money → UsageDebit
use_it amount = record {
  client_api_key_id = pos 5;
  request_log_id = pos 1;
  total_tokens = pos 51;
  reserved_amount = pos 0;
  cost_amount = pos 0;
  billable_amount = amount;
}

agreeing : Agrees 0 one_wallet
unfolding lookup ledger_net ◌+ℤ◌
agreeing user_id m e = (ground (arith, e), ground (arith, e))

pub solvent : IsSolvent one_wallet
unfolding lookup
solvent user_id m e = ground (arith, e)

held :
    (user_id : ℤ) (before : Money)
    → owner_wallet one_wallet (pos 5) ≡ some (user_id, before)
    → pos 400 ≤ℤ before
unfolding lookup
held user_id before e = ground (arith, e)

-- A debit for usage, a debit of which no statement runs, and a payment.
abbrev calls : List (Runs × WalletCall)
calls = (all_run, deduct (use_it (pos 400))) ∷ (all_run, adjust (pos 9) (pos 7) (pos 1)) ∷ []

run_calls-Agrees_example : Agrees (0 + length calls * drift) (run_calls calls one_wallet)
run_calls-Agrees_example = run_calls-Agrees 0 calls one_wallet (held, (tt, tt)) agreeing

-- Two requests for a little less than half of the fourth decimal of a dollar each.
abbrev little : List (Runs × UsageDebit)
little = (all_run, use_it (pos 499999999999)) ∷ (all_run, use_it (pos 400000000000)) ∷ []

run_calls-small_example : run_calls (map usage little) one_wallet ≡ one_wallet
run_calls-small_example = run_calls-small little one_wallet (omega arith, (omega arith, tt))

run_calls-IsSolvent_example : IsSolvent (run_calls calls one_wallet)
run_calls-IsSolvent_example = run_calls-IsSolvent calls one_wallet solvent

call-PostsOne_example :
    PostsOne admin one_wallet (call all_run (adjust (pos 9) (pos 7) (pos 1)) one_wallet)
call-PostsOne_example = call-PostsOne all_run (adjust (pos 9) (pos 7) (pos 1)) one_wallet

owned : owner_wallet one_wallet (pos 5) ≡ some (pos 9, pos 1000000000000000)
unfolding lookup
owned = refl

deduct_shortfall_example :
    let (w', outcome) =
      deduct_user_wallet_usage all_run one_wallet (use_it (pos 1010000000000000)) in
    (outcome ≡ done)
    × (lookup (pos 9) w'.balances ≡ some (pos 0))
    × SameMoney
        (ledger_net (pos 9) w'.ledger)
        (pos 1000000000000000 -ℤ to_four (pos 1010000000000000))
    × (ledger_net (pos 9) w'.ledger <ℤ pos 0)
deduct_shortfall_example =
    deduct_shortfall one_wallet (use_it (pos 1010000000000000)) (pos 9) (pos 1000000000000000)
      solvent agreeing refl owned (omega (arith, +ℤ_parts (pos 1000000000000000) (pos half_fourth)))

small_prices : HasPrices small_model
small_prices = record {
  cost_input = omega arith;
  cost_output = omega arith;
  sale_input = omega arith;
  sale_output = omega arith;
}

prompt_within :
    pos 1 ≤ℤ estimate_prompt_tokens services.number_text (get_field (codes "messages") chat_payload)
unfolding get_field wcs_transfer.Billing.estimate_items estimate_prompt_tokens
prompt_within = omega arith

completion_within : pos 50 ≤ℤ reserved_completion chat_payload small_model
unfolding reserved_completion
completion_within = omega arith

estimate_chat_reserve_amount_covers_example :
    (amounts_for_usage (pos 1) (pos 50) small_model).1
    ≤ℤ estimate_chat_reserve_amount services.number_text chat_payload small_model
estimate_chat_reserve_amount_covers_example =
    estimate_chat_reserve_amount_covers services.number_text chat_payload small_model (pos 1)
      (pos 50) small_prices (inr (omega arith)) (omega arith) (omega arith) prompt_within
      completion_within
