-- ===== src/Wallet/Small.antt =====
-- Debits that are too small for the ledger (backend/internal/repository/postgres/store.go:
-- `DeductUserWalletUsage`; backend/migrations/0009).
use wcs_transfer.Base.{
  ◌≡◌, refl, ap, ◌∙◌, inl, inr, false, Bool-cases, List, [], ◌∷◌, map, All, arith, pos, ◌<ℤ◌,
  is_positive,
}
use wcs_transfer.Wallet.{Wallets, Runs, to_four, UsageDebit, deduct_user_wallet_usage}
use wcs_transfer.Wallet.Decimals.{half_fourth, to_four-small}
use wcs_transfer.Wallet.Laws.{WalletCall, deduct, call}
use wcs_transfer.Wallet.Debits.{deduct-Posts, deduct-free}
use wcs_transfer.Wallet.Safety.{run_calls}

abbrev pub usage : Runs × UsageDebit → Runs × WalletCall
usage (runs, input) = (runs, deduct input)

deduct-small :
    (runs : Runs) (w : Wallets) (input : UsageDebit)
    → input.billable_amount <ℤ pos half_fourth
    → (deduct_user_wallet_usage runs w input).0 ≡ w
deduct-small runs w input small = elim (Bool-cases (is_positive input.billable_amount)) [
  | inr free ↦ deduct-free runs w input free
  | inl p ↦ elim (deduct-Posts runs w input p) [
    | inl kept ↦ kept
    | inr (e, (user_id, before, owned, e_is, taken), posts) ↦
        let none_taken : is_positive (to_four e.amount) ≡ false =
          ap (λ x. is_positive (to_four x.amount)) e_is
          ∙ to_four-small input.billable_amount small in
        absurd (ground (arith, taken, none_taken))
  ]
]

-- However many requests are billed less than half of the fourth decimal of a dollar each, nothing is
-- ever charged for them: the ledger refuses each row, and with it the debit. Balances and ledger
-- stay as they were.
pub run_calls-small :
    (cs : List (Runs × UsageDebit)) (w : Wallets)
    → All (λ c. c.1.billable_amount <ℤ pos half_fourth) cs
    → run_calls (map usage cs) w ≡ w
unfolding run_calls call
run_calls-small [] w _ = refl
run_calls-small ((runs, input) ∷ cs) w (small, rest) =
    run_calls-small cs (deduct_user_wallet_usage runs w input).0 rest
    ∙ deduct-small runs w input small
