-- ===== src/Access.antt =====
-- What a client's API key gives access to (backend/internal/api/openai/handler.go:
-- `clientKeyAllowsModel`, `clientKeyBudgetExceeded`).
use wcs_transfer.Base.{
  Bool, true, false, ◌||◌, Option, none, some, List, [], ◌∷◌, if◌then◌else◌, Text, codes, text_eq,
  trim_space, to_lower,
}
use wcs_transfer.Entity.{ClientApiKey}

-- `strings.EqualFold`, of ASCII texts.
abbrev pub equal_fold : Text → Text → Bool
equal_fold a b = text_eq (to_lower a) (to_lower b)

unfoldable pub names_model : Text → List Text → Bool
names_model target [] = false
names_model target (allowed ∷ models) =
    equal_fold (trim_space allowed) target || names_model target models

unfoldable pub client_key_allows_model : ClientApiKey → Text → Bool
unfolding names_model
client_key_allows_model client_key model_public_name = elim client_key.allowed_models [
  | [] ↦ true
  | m ∷ models ↦ names_model (trim_space model_public_name) (m ∷ models)
]

-- `clientKeyBudgetExceeded`; `none` is `false`.
unfoldable pub client_key_budget_exceeded : ClientApiKey → Option Text
client_key_budget_exceeded client_key = elim client_key.cost_usage [
  | none ↦ none
  | some usage ↦
      if usage.is_daily_cost_limited
      then some (codes "client daily cost budget exceeded")
      else (if usage.is_monthly_cost_limited
          then some (codes "client monthly cost budget exceeded")
          else none)
]
