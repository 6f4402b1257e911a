-- ===== src/Examples/Forms.antt =====
-- Forms of the console for client keys and wallets, at concrete inputs.
use wcs_transfer.Base.{
  arith, ◌≡◌, refl, ℕ, true, Option, none, some, [], ◌∷◌, int_eq, ℤ, pos, Text, codes, trim_space,
  ◌+ℤ◌, lookup,
}
use wcs_transfer.Entity.{Time, Money, ClientApiKey}
use wcs_transfer.Auth.{public_api_auth}
use wcs_transfer.Auth.Payers.{status_of}
use wcs_transfer.ClientKeys.{KeyResult}
use wcs_transfer.ClientKeys.Authenticate.Admits.{authenticates}
use wcs_transfer.Portal.{after_visits}
use wcs_transfer.Wallet.{Wallets, Outcome}
use wcs_transfer.Wallet.Decimals.{HasEight}
use wcs_transfer.Wallet.Columns.{AllEight}
use wcs_transfer.Wallet.Ledger.{SameMoney, ledger_net}
use wcs_transfer.Wallet.Safety.{all_run}
use wcs_transfer.Console.{AdminAction, FormAnswer, saved, acted, error}
use wcs_transfer.Console.Keys.{UpdateKeyForm, update_client_api_key_form}
use wcs_transfer.Console.Keys.Disabled.{console_disabled-refused}
use wcs_transfer.Console.Wallets.{WalletForm, adjust_user_wallet_form, correct_user_wallet_form}
use wcs_transfer.Console.Wallets.TakenBack.{opposite, credit-taken_back}
use wcs_transfer.Examples.{owner_key, one_wallet}
use wcs_transfer.Examples.Money.{solvent}
use wcs_transfer.Examples.Keyrings.{plain, at_noon, made, in_header, second_key}

abbrev key_error : KeyResult → ℕ
key_error result = 3003

abbrev no_time : Text → Option Time
no_time text = none

-- The status has blanks, the threshold is left out and the model is named twice.
abbrev shutting : UpdateKeyForm
shutting = record {
  name = codes " n";
  status = codes " disabled ";
  description = [];
  rpm_limit = pos 0;
  daily_request_limit = pos 0;
  daily_token_limit = pos 0;
  daily_cost_limit = pos 2;
  monthly_cost_limit = pos 0;
  warning_threshold = pos 0;
  allowed_model_ids = pos 1 ∷ pos 1 ∷ [];
  expires_at = some (codes " ");
}

abbrev key_of_form : FormAnswer ClientApiKey → ClientApiKey
key_of_form (saved item action) = item
key_of_form (error code) = owner_key

abbrev shut_item : ClientApiKey
shut_item =
    key_of_form
      (update_client_api_key_form key_error no_time true plain at_noon made.0 (codes "1")
        (some shutting)).1

console_disabled-refused_example :
    status_of
      (public_api_auth
        (some (
          authenticates plain at_noon (
            after_visits plain
              (update_client_api_key_form key_error no_time true plain at_noon made.0
                (codes "1")
                (some shutting)).0
              second_key)))
        true
        in_header).0
    ≡ 401
unfolding wcs_transfer.ClientKeys.nullable_int64 wcs_transfer.ClientKeys.normalize_int64_ids
    wcs_transfer.ClientKeys.Writes.create_client_api_key update_client_api_key_form
    wcs_transfer.Auth.extract_client_api_key trim_space
console_disabled-refused_example =
    console_disabled-refused plain at_noon made.0 key_error no_time (codes "1") (pos 1) shutting
      shut_item (acted (codes "client_key.update") (pos 1) (codes "n")) in_header second_key at_noon
      true refl refl refl ((λ e. refl), tt) refl

abbrev wallet_error : Outcome → ℕ
wallet_error outcome = 3003

abbrev no_email : ℤ → Text
no_email user_id = []

abbrev gift : WalletForm
gift = record { amount = pos 500000000000; note = [] }

abbrev gift_action : AdminAction
gift_action = acted (codes "user.wallet.credit") (pos 9) []

gift_saved :
    (adjust_user_wallet_form wallet_error no_email true all_run
      (pos 1)
      one_wallet
      (codes "9")
      (some gift)).1
    ≡ saved (some (pos 1000500000000000)) gift_action
unfolding adjust_user_wallet_form trim_space ◌+ℤ◌ lookup
    wcs_transfer.Wallet.apply_user_wallet_admin_change wcs_transfer.Wallet.admin_balance
    wcs_transfer.Wallet.write_entry wcs_transfer.Wallet.to_four wcs_transfer.Wallet.to_eight
    wcs_transfer.Base.insert
gift_saved = refl

eight_decimals : AllEight one_wallet
unfolding lookup wcs_transfer.Wallet.to_eight
eight_decimals user m e = ground (arith, e)

gift_eight : HasEight (pos 500000000000)
unfolding wcs_transfer.Wallet.to_eight
gift_eight = refl

credit-taken_back_example :
    (w' : Wallets) × (before : Money) × (correct_user_wallet_form wallet_error no_email true all_run
        (pos 1)
        (adjust_user_wallet_form wallet_error no_email true all_run
          (pos 1)
          one_wallet
          (codes "9")
          (some gift)).0
        (codes "9")
        (some (opposite gift (codes "mistake")))
      ≡ (w', saved (some before) (acted (codes "user.wallet.correct") (pos 9) [])))
    × (lookup (pos 9) one_wallet.balances ≡ some before)
    × ((user : ℤ)
        → (lookup user w'.balances ≡ lookup user one_wallet.balances)
          × SameMoney (ledger_net user w'.ledger) (ledger_net user one_wallet.ledger))
unfolding trim_space
credit-taken_back_example =
    credit-taken_back wallet_error no_email all_run (pos 1) one_wallet (codes "9") gift
      (some (pos 1000500000000000)) gift_action (codes "mistake") solvent eight_decimals gift_eight
      refl gift_saved
