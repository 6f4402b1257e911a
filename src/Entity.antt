-- ===== src/Entity.antt =====
-- The records of backend/internal/entity/gateway.go, as far as the modelled code reads them.
--
-- Amounts of money are whole numbers of a tick, 10^-16 US dollars: a price has six decimals for a
-- million tokens and a reserve multiplier has four, so that every amount the code computes from
-- them is a whole number of ticks. A price is a whole number of 10^-6 dollars, and a multiplier of
-- 10^-4; a warning threshold is a whole number of hundredths of a percent. Times are nanoseconds since the epoch.
use wcs_transfer.Base.{Bool, Option, List, ℤ, Text}

abbrev pub Time : Type 0
Time = ℤ

abbrev pub Duration : Type 0
Duration = ℤ

abbrev pub Money : Type 0
Money = ℤ

pub record ProviderKey : Type 0 where
  pub id : ℤ
  pub name : Text
  pub api_key : Text
  pub health_status : Text
  pub cooldown_reason : Text
  pub cooldown_until : Option Time
  pub weight : ℤ
  pub priority : ℤ

pub record Model : Type 0 where
  pub public_name : Text
  pub upstream_model : Text
  pub route_strategy : Text
  pub max_tokens : ℤ
  pub temperature : ℤ
  pub timeout_seconds : ℤ
  pub cost_input_per_1m : ℤ
  pub cost_output_per_1m : ℤ
  pub sale_input_per_1m : ℤ
  pub sale_output_per_1m : ℤ
  pub reserve_multiplier : ℤ
  pub reserve_min_amount : Money

pub record Provider : Type 0 where
  pub id : ℤ
  pub slug : Text
  pub provider_type : Text
  pub base_url : Text
  pub extra_config : Text

pub record ModelRoute : Type 0 where
  pub model : Model
  pub provider : Provider
  pub keys : List ProviderKey

-- A percentage as the fraction `parts / whole`, of a positive `whole`.
pub record Percent : Type 0 where
  pub parts : ℤ
  pub whole : ℤ

pub record ClientCostUsage : Type 0 where
  pub total_cost_used : Money
  pub daily_cost_used : Money
  pub monthly_cost_used : Money
  pub daily_cost_remaining : Money
  pub monthly_cost_remaining : Money
  pub daily_cost_usage_percent : Percent
  pub monthly_cost_usage_percent : Percent
  pub is_daily_cost_limited : Bool
  pub is_monthly_cost_limited : Bool
  pub is_warning_triggered : Bool

pub record ClientApiKey : Type 0 where
  pub id : ℤ
  pub user_id : ℤ
  pub user_email : Text
  pub name : Text
  pub masked_key : Text
  pub plain_api_key : Text
  pub status : Text
  pub description : Text
  pub user_wallet_balance : Money
  pub user_min_avail_balance : Money
  pub rpm_limit : ℤ
  pub daily_request_limit : ℤ
  pub daily_token_limit : ℤ
  pub daily_cost_limit : Money
  pub monthly_cost_limit : Money
  pub warning_threshold : ℤ
  pub allowed_model_ids : List ℤ
  pub allowed_models : List Text
  pub cost_usage : Option ClientCostUsage
  pub expires_at : Option Time
  pub last_used_at : Option Time
