-- ===== src/Console/Wallets/TakenBack.antt =====
-- A credit of the console and the correction that takes it back
-- (backend/internal/api/admin/handler.go: `AdjustUserWallet`, `CorrectUserWallet`;
-- backend/internal/repository/postgres/store.go: `applyUserWalletAdminChange`).
use wcs_transfer.Base.{
  ◌≡◌, refl, ◌∙◌, inl, inr, ℕ, Bool-cases, true, false, Option, some, Option-cases, arith, ℤ, pos,
  ◌+ℤ◌, ◌-ℤ◌, eqb_ℤ, is_positive, int_eq, -ℤ_parts, +ℤ_parts, is_empty-trim_trim, Text, codes,
  is_empty, trim_space, lookup, lookup-insert,
}
use wcs_transfer.Entity.{Money}
use wcs_transfer.Console.{AdminAction, saved, parse_form_id, acted}
use wcs_transfer.Wallet.{
  credit, debit, Wallets, Runs, Outcome, done, bad_amount, note_required, no_wallet,
  negative_balance, failed, posted, admin_entry, adjust_user_wallet, to_eight,
}
use wcs_transfer.Wallet.Decimals.{HasEight, HasEight-add}
use wcs_transfer.Wallet.Columns.{AllEight}
use wcs_transfer.Wallet.Ledger.{ledger_net, SameMoney, IsSolvent}
use wcs_transfer.Wallet.Safety.{all_run}
use wcs_transfer.Console.Wallets.{
  WalletForm, wallet_answer, adjust_user_wallet_form, correct_user_wallet_form,
}
use wcs_transfer.Wallet.Undone.{credit-done, correct-debits, undone}

abbrev pub opposite : WalletForm → Text → WalletForm
opposite form reason = record { amount = pos 0 -ℤ form.amount; note = reason }

module _ (code_of : Outcome → ℕ) (email_of : ℤ → Text) (runs : Runs) (operator_id : ℤ)
    (w : Wallets) where
  wallet_answer-saved :
      (name : Text) (id : ℤ) (answer : Wallets × Outcome) (balance : Option Money)
      (action : AdminAction)
      → (wallet_answer code_of email_of true runs operator_id w name id answer).1
        ≡ saved balance action
      → (answer.1 ≡ done) × (action.resource_id ≡ id)
  unfolding wallet_answer
  wallet_answer-saved name id (w', done) balance action e = ground (arith, e)
  wallet_answer-saved name id (w', bad_amount) balance action e = ground (arith, e)
  wallet_answer-saved name id (w', note_required) balance action e = ground (arith, e)
  wallet_answer-saved name id (w', no_wallet) balance action e = ground (arith, e)
  wallet_answer-saved name id (w', negative_balance) balance action e = ground (arith, e)
  wallet_answer-saved name id (w', failed st) balance action e = ground (arith, e)

  wallet_answer-tables :
      (name : Text) (id : ℤ) (answer : Wallets × Outcome)
      → (wallet_answer code_of email_of true runs operator_id w name id answer).0 ≡ answer.0
  unfolding wallet_answer
  wallet_answer-tables name id (w', done) = refl
  wallet_answer-tables name id (w', bad_amount) = refl
  wallet_answer-tables name id (w', note_required) = refl
  wallet_answer-tables name id (w', no_wallet) = refl
  wallet_answer-tables name id (w', negative_balance) = refl
  wallet_answer-tables name id (w', failed st) = refl

  form-credits :
      (param : Text) (form : WalletForm) (balance : Option Money) (action : AdminAction)
      → (adjust_user_wallet_form code_of email_of true runs operator_id w param (some form)).1
        ≡ saved balance action
      → (parse_form_id param ≡ some action.resource_id)
        × ((adjust_user_wallet runs w action.resource_id form.amount operator_id).1 ≡ done)
        × ((adjust_user_wallet_form code_of email_of true runs operator_id w param (some form)).0
            ≡ (adjust_user_wallet runs w action.resource_id form.amount operator_id).0)
  unfolding adjust_user_wallet_form
  form-credits param form balance action e = elim (Option-cases (parse_form_id param)) [
    | inl n ↦ absurd (ground (arith, e, n))
    | inr (id, is_id) ↦ elim (Bool-cases (is_positive form.amount)) [
      | inr p ↦ absurd (ground (arith, e, is_id, p))
      | inl p ↦
          let stored = adjust_user_wallet runs w id form.amount operator_id in
          let name = codes "user.wallet.credit" in
          let (is_done, same) =
            wallet_answer-saved name id stored balance action (ground (arith, e, is_id, p)) in
          rw same (is_id, is_done, ground (arith, is_id, p, wallet_answer-tables name id stored))
    ]
  ]

  -- A credit that the console has saved can be taken back, if its amount has at most eight decimals,
  -- as the column of the balances keeps. Where the balances have eight decimals and none was
  -- negative, a correction by the opposite amount, with a reason that is not blank and all of whose statements
  -- run, is saved and answered with the balance from before the credit; then all balances are as
  -- before, and so is what the ledger adds up to for each user.
  pub credit-taken_back :
      (param : Text) (form : WalletForm) (balance : Option Money) (action : AdminAction)
      (reason : Text)
      → IsSolvent w
      → AllEight w
      → HasEight form.amount
      → is_empty (trim_space reason) ≡ false
      → (adjust_user_wallet_form code_of email_of true runs operator_id w param (some form)).1
        ≡ saved balance action
      → (w' : Wallets) × (before : Money) × (correct_user_wallet_form code_of email_of true all_run
            operator_id
            (adjust_user_wallet_form code_of email_of true runs operator_id w param (some form)).0
            param
            (some (opposite form reason))
          ≡ (
            w',
            saved (some before) (
                acted
                  (codes "user.wallet.correct")
                  action.resource_id
                  (email_of action.resource_id)),
          ))
        × (lookup action.resource_id w.balances ≡ some before)
        × ((user : ℤ)
            → (lookup user w'.balances ≡ lookup user w.balances)
              × SameMoney (ledger_net user w'.ledger) (ledger_net user w.ledger))
  unfolding correct_user_wallet_form wallet_answer
  credit-taken_back param form balance action reason solvent kept_exact exact nonblank e =
      let id = action.resource_id in
      let (is_id, is_done, tables) = form-credits param form balance action e in
      let (positive, taken, before, at, credited) =
        credit-done w id form.amount operator_id runs is_done in
      let first = admin_entry id credit form.amount before (before +ℤ form.amount) operator_id in
      let w1 = posted w first in
      let second =
        admin_entry id debit form.amount (before +ℤ form.amount)
          (before +ℤ form.amount -ℤ form.amount) operator_id in
      let not_negative = solvent id before at in
      let exact' : HasEight (before +ℤ form.amount) =
        HasEight-add before form.amount not_negative (ground arith) (kept_exact id before at)
          exact in
      let held = lookup-insert id id (to_eight (before +ℤ form.amount)) w.balances in
      let has : lookup id w1.balances ≡ some (before +ℤ form.amount) =
        ground (arith, held, exact') in
      let corrected =
        correct-debits w1 id form.amount operator_id (before +ℤ form.amount) (trim_space reason)
          positive taken (is_empty-trim_trim reason ∙ nonblank) has
          (omega (arith, +ℤ_parts before form.amount, not_negative)) in
      let kept =
        undone w id form.amount operator_id before (posted w1 second) (kept_exact id before at)
          exact' at refl in
      let moved = -ℤ_parts (pos 0) form.amount in
      let nonzero : eqb_ℤ (pos 0 -ℤ form.amount) (pos 0) ≡ false =
        ground (arith, moved, positive) in
      (
        posted w1 second,
        before,
        rw (tables, credited)
            (ground (arith, is_id, nonblank, nonzero, corrected, (kept id).0, at)),
        at,
        kept,
      )
