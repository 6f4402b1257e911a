-- ===== src/KeyCosts/Budget.antt =====
-- When a budget is used up (backend/internal/repository/postgres/store.go: `buildClientCostUsage`;
-- backend/internal/api/openai/handler.go: `clientKeyBudgetExceeded`).
use wcs_transfer.Base.{◌≡◌, ◌↔◌, ◌⊎◌, Bool, true, false, Option, none, some, arith, pos, ◌≤ℤ◌, ◌<ℤ◌}
use wcs_transfer.Entity.{Money, ClientApiKey}
use wcs_transfer.Access.{client_key_budget_exceeded}
use wcs_transfer.KeyCosts.{build_client_cost_usage}

abbrev pub is_some {ℓ} : {A : Type ℓ} → Option A → Bool
is_some none = false
is_some (some a) = true

-- There is a limit, and what was spent has reached it.
abbrev pub IsSpent : Money → Money → Type 0
IsSpent limit used = (pos 0 <ℤ limit) × (limit ≤ℤ used)

pub budget_exceeded_iff :
    (item key : ClientApiKey) (total daily monthly : Money)
    → key.cost_usage ≡ some (build_client_cost_usage item total daily monthly)
    → (is_some (client_key_budget_exceeded key) ≡ true)
      ↔ (IsSpent item.daily_cost_limit daily ⊎ IsSpent item.monthly_cost_limit monthly)
unfolding client_key_budget_exceeded build_client_cost_usage
budget_exceeded_iff item key total daily monthly e = ground (arith, e)
