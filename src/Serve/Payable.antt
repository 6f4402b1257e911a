-- ===== src/Serve/Payable.antt =====
-- A chat request that is let through can be paid (backend/internal/api/openai/handler.go, with
-- backend/internal/repository/postgres/store.go).
use wcs_transfer.Base.{ℕ, ◌+◌, ◌≡◌, true, some, arith, ℤ, pos, ◌≤ℤ◌, is_positive, codes}
use wcs_transfer.Entity.{Money, ClientApiKey}
use wcs_transfer.Json.{get_field}
use wcs_transfer.Log.{ChatLogState}
use wcs_transfer.Billing.{
  amounts_for_usage, reserved_completion, estimate_prompt_tokens, estimate_chat_reserve_amount,
}
use wcs_transfer.Billing.Bounds.{HasPrices, Multiplies, estimate_chat_reserve_amount_covers}
use wcs_transfer.Wallet.{Wallets, Runs, UsageDebit, owner_wallet, deduct_user_wallet_usage}
use wcs_transfer.Wallet.Ledger.{Agrees, drift}
use wcs_transfer.Wallet.Laws.{deduct}
use wcs_transfer.Wallet.Safety.{IsCovered, deduct-Agrees}
use wcs_transfer.Routing.{RouterState}
use wcs_transfer.Proxy.{chat_completions}
use wcs_transfer.Checks.{passed, Options, Request, Services, Prepared, required_reserve}
use wcs_transfer.Preflight.{preflight}
use wcs_transfer.Preflight.Admitted.{preflight-IsAdmitted}

-- Usage within what the request was let through for.
pub record IsEstimated (env : Services) (p : Prepared) (prompt completion : ℤ) : Type 0 where
  pub prompt_nonneg : pos 0 ≤ℤ prompt
  pub completion_nonneg : pos 0 ≤ℤ completion
  pub prompt_within :
      prompt ≤ℤ estimate_prompt_tokens env.number_text (get_field (codes "messages") p.payload)
  pub completion_within : completion ≤ℤ reserved_completion p.payload p.route.model

reserve_known :
    (env : Services) (router router' : RouterState) (options : Options) (request : Request)
    (key : ClientApiKey) (s s' : ChatLogState) (p : Prepared)
    → request.client_key ≡ some key
    → is_positive key.user_id ≡ true
    → preflight chat_completions env router options request s ≡ (router', passed s' p)
    → is_positive (required_reserve chat_completions env p.payload p.route.model) ≡ true
    → required_reserve chat_completions env p.payload p.route.model ≤ℤ key.user_wallet_balance
reserve_known env router router' options request key s s' p keyed owned e some_reserve =
    let (_, covered) =
      preflight-IsAdmitted chat_completions env router router' options request s s' p e in
    let held = rw keyed at covered in (held owned).1 some_reserve

-- A chat request of a key with an owner that is let through can be paid: whatever usage within its
-- estimates it is billed for, if it is billed at all, at prices that are not negative and a multiplier that is unset or at
-- least one, the debit asks for no more than the owner's wallet holds, if that is still what it held
-- when the key was read. So balances and ledger drift apart by no more than the rounding of one
-- entry, half of the eighth and half of the fourth decimal of a dollar, whatever statements fail.
pub preflight-payable :
    (env : Services) (router router' : RouterState) (options : Options) (request : Request)
    (key : ClientApiKey) (s s' : ChatLogState) (p : Prepared)
    → request.client_key ≡ some key
    → is_positive key.user_id ≡ true
    → preflight chat_completions env router options request s ≡ (router', passed s' p)
    → HasPrices p.route.model
    → Multiplies p.route.model
    → (prompt completion : ℤ) (runs : Runs) (w : Wallets) (input : UsageDebit)
    → IsEstimated env p prompt completion
    → input.billable_amount ≡ (amounts_for_usage prompt completion p.route.model).1
    → ((user_id : ℤ) (before : Money)
        → owner_wallet w input.client_api_key_id ≡ some (user_id, before)
        → before ≡ key.user_wallet_balance)
    → is_positive input.billable_amount ≡ true
    → (k : ℕ) → Agrees k w
    → IsCovered (deduct input) w × Agrees (k + drift) (deduct_user_wallet_usage runs w input).0
unfolding required_reserve
preflight-payable env router router' options request key s s' p keyed owned e prices multiplies
      prompt completion runs w input within billed still some_bill k agrees =
    let required = estimate_chat_reserve_amount env.number_text p.payload p.route.model in
    let covers =
      estimate_chat_reserve_amount_covers env.number_text p.payload p.route.model prompt completion
        prices multiplies within.prompt_nonneg within.completion_nonneg within.prompt_within
        within.completion_within in
    let enough : input.billable_amount ≤ℤ required = rw billed covers in
    let held = reserve_known env router router' options request key s s' p keyed owned e in
    let some_reserve : is_positive required ≡ true = ground (arith, some_bill, enough) in
    let covered : IsCovered (deduct input) w = λ user_id before found.
      rw (still user_id before found) (omega (arith, enough, held some_reserve)) in
    (covered, deduct-Agrees k runs input w covered agrees)
