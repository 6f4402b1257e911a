-- ===== src/Alert.antt =====
-- The five alert services, which poll for anomalies and notify once for each
-- (backend/internal/service/walletalert, billingalert, provideralert, dependencyalert and
-- reconciliation, each `service.go`). The set `alerted` is the state a service keeps between polls;
-- the ticker of `Start` is a sequence of polls. A notifier that fails is only logged, so what is
-- kept of the notifications is the items that were sent. Ratios are in 1/10000.
mod Marks
unfoldable pub use Marks.*
pub mod Polls
pub mod Mismatches
use wcs_transfer.Base.{
  Bool, ◌&&◌, Option, none, some, List, [], ◌∷◌, if◌then◌else◌, ℤ, pos, ◌-ℤ◌, ◌*ℤ◌, ltb_ℤ, Text,
  codes, text_eq, int_eq, text_key_eq,
}
use wcs_transfer.Entity.{Duration, Money}

pub record WalletAnomaly : Type 0 where
  pub user_id : ℤ
  pub wallet_blocked_count : ℤ
  pub reserve_blocked_count : ℤ

pub record WalletAlertService : Type 0 where
  pub window : Duration
  pub interval : Duration
  pub wallet_block_threshold : ℤ
  pub reserve_block_threshold : ℤ

unfoldable pub new_wallet_alert : Duration → Duration → ℤ → ℤ → WalletAlertService
new_wallet_alert window interval wallet reserve = record {
  window = or_default (pos 5 *ℤ minute) window;
  interval = or_default minute interval;
  wallet_block_threshold = or_default (pos 5) wallet;
  reserve_block_threshold = or_default (pos 5) reserve;
}

unfoldable pub run_wallet_alert :
    Bool → Option (List WalletAnomaly) → Alerted ℤ → Poll ℤ WalletAnomaly
run_wallet_alert has_notifier = run_once (λ (i : WalletAnomaly). i.user_id) has_notifier

-- Users with billed requests that were not debited.
pub record DebitAnomaly : Type 0 where
  pub user_id : ℤ
  pub missing_debit_count : ℤ
  pub missing_billable_amount : Money

pub record BillingAlertService : Type 0 where
  pub window : Duration
  pub interval : Duration
  pub min_count : ℤ
  pub min_billable_amount : Money

unfoldable pub new_billing_alert : Duration → Duration → ℤ → Money → BillingAlertService
new_billing_alert window interval min_count min_amount = record {
  window = or_default (pos 10 *ℤ minute) window;
  interval = or_default minute interval;
  min_count = or_default (pos 1) min_count;
  min_billable_amount = or_default (pos 100000000000000) min_amount;
}

unfoldable pub run_billing_alert :
    Bool → Option (List DebitAnomaly) → Alerted ℤ → Poll ℤ DebitAnomaly
run_billing_alert has_notifier = run_once (λ (i : DebitAnomaly). i.user_id) has_notifier

-- Providers that limit the rate or fail.
pub record ProviderAnomaly : Type 0 where
  pub provider_id : ℤ
  pub total_requests : ℤ
  pub rate_limited_count : ℤ
  pub server_error_count : ℤ

pub record ProviderAlertService : Type 0 where
  pub window : Duration
  pub interval : Duration
  pub min_requests : ℤ
  pub rate_limited_threshold : ℤ
  pub server_error_threshold : ℤ

unfoldable pub new_provider_alert : Duration → Duration → ℤ → ℤ → ℤ → ProviderAlertService
new_provider_alert window interval min_requests rate_limited server_error = record {
  window = or_default (pos 5 *ℤ minute) window;
  interval = or_default minute interval;
  min_requests = or_default (pos 10) min_requests;
  rate_limited_threshold = or_default (pos 2000) rate_limited;
  server_error_threshold = or_default (pos 2000) server_error;
}

unfoldable pub run_provider_alert :
    Bool → Option (List ProviderAnomaly) → Alerted ℤ → Poll ℤ ProviderAnomaly
run_provider_alert has_notifier = run_once (λ (i : ProviderAnomaly). i.provider_id) has_notifier

-- Dependencies that are down: database, cache. The results are a Go map, met in any order.
pub record HealthResult : Type 0 where
  pub status : Text
  pub details : Text

unfoldable pub check_dependency :
    Bool → Text × HealthResult → Poll Text (Text × HealthResult) → Poll Text (Text × HealthResult)
unfolding check_item clear_alerted
check_dependency has_notifier (dependency, result) p =
    if text_eq result.status (codes "down")
    then check_item (λ i. i.0) has_notifier (dependency, result) p
    else record p { alerted = clear_alerted dependency p.alerted }

unfoldable pub check_dependencies :
    Bool
    → List (Text × HealthResult)
    → Poll Text (Text × HealthResult)
    → Poll Text (Text × HealthResult)
unfolding check_dependency
check_dependencies has_notifier [] p = p
check_dependencies has_notifier (r ∷ results) p =
    check_dependencies has_notifier results (check_dependency has_notifier r p)

unfoldable pub run_dependency_alert :
    Bool → List (Text × HealthResult) → Alerted Text → Poll Text (Text × HealthResult)
unfolding check_dependencies
run_dependency_alert has_notifier results alerted =
    let p = check_dependencies has_notifier results (start (λ i. i.0) has_notifier alerted) in
    record p { alerted = clear_recovered p.active p.alerted }

-- Users whose balance, ledger and request logs differ.
pub record Reconciliation : Type 0 where
  pub user_id : ℤ
  pub wallet_vs_ledger_diff : Money
  pub ledger_vs_logs_diff : Money

unfoldable pub abs : ℤ → ℤ
abs a = if ltb_ℤ a (pos 0) then pos 0 -ℤ a else a

unfoldable pub in_tolerance : Money → Reconciliation → Bool
unfolding abs
in_tolerance threshold item =
    ltb_ℤ (abs item.wallet_vs_ledger_diff) threshold
    && ltb_ℤ (abs item.ledger_vs_logs_diff) threshold

unfoldable pub check_mismatch :
    Bool → Money → Reconciliation → Poll ℤ Reconciliation → Poll ℤ Reconciliation
unfolding mark_alerted clear_alerted
check_mismatch has_notifier threshold item p =
    if in_tolerance threshold item
    then record p { alerted = clear_alerted item.user_id p.alerted }
    else (let (alerted, already) = mark_alerted item.user_id p.alerted in
        if already
        then record p { alerted = alerted }
        else notify (λ (i : Reconciliation). i.user_id) has_notifier item
            (record p { alerted = alerted }))

unfoldable pub check_mismatches :
    Bool → Money → List Reconciliation → Poll ℤ Reconciliation → Poll ℤ Reconciliation
unfolding check_mismatch
check_mismatches has_notifier threshold [] p = p
check_mismatches has_notifier threshold (item ∷ items) p =
    check_mismatches has_notifier threshold items (check_mismatch has_notifier threshold item p)

unfoldable pub run_reconciliation :
    Bool → Money → Option (List Reconciliation) → Alerted ℤ → Poll ℤ Reconciliation
unfolding check_mismatches
run_reconciliation has_notifier threshold none alerted =
    start (λ (i : Reconciliation). i.user_id) has_notifier alerted
run_reconciliation has_notifier threshold (some items) alerted =
    check_mismatches has_notifier threshold items
      (start (λ (i : Reconciliation). i.user_id) has_notifier alerted)
