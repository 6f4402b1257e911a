-- ===== src/Console/Wallets.antt =====
-- The forms of the console for a user's wallet (backend/internal/api/admin/handler.go:
-- `AdjustUserWallet`, `CorrectUserWallet`). The code that `writeDatabaseError` reads off the store's
-- error is an argument, and so are the emails of users; the note of an entry is left out.
use wcs_transfer.Base.{
  ℕ, Bool, Option, if◌then◌else◌, ℤ, pos, eqb_ℤ, is_positive, int_eq, Text, codes, is_empty,
  trim_space, lookup,
}
pub mod TakenBack
use wcs_transfer.Entity.{Money}
use wcs_transfer.Portal.Debug.{code_invalid_param}
use wcs_transfer.Console.{FormAnswer, error, saved, parse_form_id, acted, with_form}
use wcs_transfer.Wallet.{Wallets, Runs, Outcome, done, adjust_user_wallet, correct_user_wallet}

pub record WalletForm : Type 0 where
  pub amount : Money
  pub note : Text

module _ (code_of : Outcome → ℕ) (email_of : ℤ → Text) (has_store : Bool) (runs : Runs)
    (operator_id : ℤ) (w : Wallets) where
  -- The item that is answered with has the balance that the update returned.
  unfoldable pub wallet_answer : Text → ℤ → Wallets × Outcome → Wallets × FormAnswer (Option Money)
  wallet_answer action id (w', done) =
      (w', saved (lookup id w'.balances) (acted action id (email_of id)))
  wallet_answer action id (w', outcome) = (w', error (code_of outcome))

  unfoldable pub adjust_user_wallet_form :
      Text → Option WalletForm → Wallets × FormAnswer (Option Money)
  unfolding wallet_answer adjust_user_wallet parse_form_id
  adjust_user_wallet_form param body = with_form has_store w (parse_form_id param) body (λ id form.
      if is_positive form.amount
      then wallet_answer (codes "user.wallet.credit") id
          (adjust_user_wallet runs w id form.amount operator_id)
      else (w, error code_invalid_param))

  unfoldable pub correct_user_wallet_form :
      Text → Option WalletForm → Wallets × FormAnswer (Option Money)
  unfolding wallet_answer correct_user_wallet parse_form_id
  correct_user_wallet_form param body = with_form has_store w (parse_form_id param) body (λ id form.
      if eqb_ℤ form.amount (pos 0)
      then (w, error code_invalid_param)
      else (if is_empty (trim_space form.note)
          then (w, error code_invalid_param)
          else wallet_answer (codes "user.wallet.correct") id
              (correct_user_wallet runs w id form.amount (trim_space form.note) operator_id)))
