-- ===== src/KeyCosts.antt =====
-- What a client key has spent against its budgets (backend/internal/repository/postgres/store.go:
-- `buildClientCostUsage`, `costRemaining`, `costUsagePercent`). Amounts and percentages are exact;
-- the times at which the budgets start again are left out.
use wcs_transfer.Base.{Bool, ◌&&◌, if◌then◌else◌, ℤ, pos, ◌-ℤ◌, ◌*ℤ◌, ltb_ℤ, leb_ℤ, is_positive}
use wcs_transfer.Entity.{Money, Percent, ClientCostUsage, ClientApiKey}
pub mod Budget

unfoldable pub cost_remaining : Money → Money → Money
cost_remaining limit used =
    let remaining = limit -ℤ used in if ltb_ℤ remaining (pos 0) then pos 0 else remaining

-- Of no limit, 0 %.
unfoldable pub cost_usage_percent : Money → Money → Percent
cost_usage_percent limit used =
    if leb_ℤ limit (pos 0)
    then record { parts = pos 0; whole = pos 1 }
    else record { parts = used *ℤ pos 100; whole = limit }

-- `p > q`
abbrev pub percent_gt : Percent → Percent → Bool
percent_gt p q = ltb_ℤ (q.parts *ℤ p.whole) (p.parts *ℤ q.whole)

-- `p >= threshold`, of a threshold in hundredths of a percent.
abbrev pub percent_ge : Percent → ℤ → Bool
percent_ge p threshold = leb_ℤ (threshold *ℤ p.whole) (p.parts *ℤ pos 100)

abbrev pub highest_usage_percent : Percent → Percent → Percent
highest_usage_percent daily monthly = if percent_gt monthly daily then monthly else daily

abbrev pub usage_from : ClientApiKey → Money → Money → Money → Percent → Percent → ClientCostUsage
usage_from item total daily monthly daily_percent monthly_percent = record {
  total_cost_used = total;
  daily_cost_used = daily;
  monthly_cost_used = monthly;
  daily_cost_remaining =
      if is_positive item.daily_cost_limit
      then cost_remaining item.daily_cost_limit daily
      else pos 0;
  monthly_cost_remaining =
      if is_positive item.monthly_cost_limit
      then cost_remaining item.monthly_cost_limit monthly
      else pos 0;
  daily_cost_usage_percent = daily_percent;
  monthly_cost_usage_percent = monthly_percent;
  is_daily_cost_limited = is_positive item.daily_cost_limit && leb_ℤ item.daily_cost_limit daily;
  is_monthly_cost_limited =
      is_positive item.monthly_cost_limit && leb_ℤ item.monthly_cost_limit monthly;
  is_warning_triggered =
      is_positive item.warning_threshold
      && percent_ge (highest_usage_percent daily_percent monthly_percent) item.warning_threshold;
}

unfoldable pub build_client_cost_usage : ClientApiKey → Money → Money → Money → ClientCostUsage
unfolding cost_remaining cost_usage_percent
build_client_cost_usage item total daily monthly =
    usage_from item total daily monthly (cost_usage_percent item.daily_cost_limit daily)
      (cost_usage_percent item.monthly_cost_limit monthly)
