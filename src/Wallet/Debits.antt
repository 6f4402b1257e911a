-- ===== src/Wallet/Debits.antt =====
-- What a debit for usage posts, also where a statement fails
-- (backend/internal/repository/postgres/store.go: `DeductUserWalletUsage`).
use wcs_transfer.Base.{
  ◌≡◌, refl, sym, ap, ◌∙◌, ◌⊎◌, inl, inr, true, false, Option, none, some, arith, Bool-cases, ℤ,
  pos, ◌-ℤ◌, ◌≤ℤ◌, ◌<ℤ◌, is_positive, -ℤ_parts, int_laws, int_eq, lookup,
}
use wcs_transfer.Entity.{Money}
use wcs_transfer.Wallet.{
  LedgerEntry, Wallets, Stage, Runs, system, done, write_entry, to_four, UsageDebit, debited,
  usage_entry, owner_wallet, deduct_user_wallet_usage,
}
use wcs_transfer.Wallet.Laws.{Posts, IsSound, PostsOne, stage-Posts, write_entry-Posts}

-- The entry of a debit for usage, at the balance that was read and with an amount the ledger takes.
abbrev pub UsageOf : Wallets → UsageDebit → LedgerEntry → Type 0
UsageOf w input e =
    (user_id : ℤ) × (before : Money) × (owner_wallet w input.client_api_key_id
      ≡ some (user_id, before))
    × (e ≡ usage_entry user_id before input)
    × (is_positive (to_four e.amount) ≡ true)

pub owner_wallet-read :
    (w : Wallets) (key_id user_id : ℤ) (before : Money)
    → owner_wallet w key_id ≡ some (user_id, before)
    → lookup user_id w.balances ≡ some before
owner_wallet-read w key_id user_id before h = ground arith

pub deduct-Posts :
    (runs : Runs) (w : Wallets) (input : UsageDebit)
    → is_positive input.billable_amount ≡ true
    → Posts (UsageOf w input) w (deduct_user_wallet_usage runs w input)
unfolding deduct_user_wallet_usage
deduct-Posts runs w input p = elim (Bool-cases (is_positive input.client_api_key_id)) [
  | inr keyless ↦ rw keyless (inl refl)
  | inl yes_key ↦
      rw (yes_key, p)
        (stage-Posts (UsageOf w input) (runs Stage.begin) Stage.begin w _ (
          stage-Posts (UsageOf w input) (runs Stage.load_wallet) Stage.load_wallet w _
            (go (owner_wallet w input.client_api_key_id) refl)))
]
  where
    go :
        (o : Option (ℤ × Money))
        → owner_wallet w input.client_api_key_id ≡ o
        → Posts (UsageOf w input) w (elim o [
          | none ↦ (w, done)
          | some (user_id, before) ↦ write_entry runs w (usage_entry user_id before input)
        ])
    go none e = inl refl
    go (some (user_id, before)) e =
        write_entry-Posts (UsageOf w input) runs w _ λ taken. (user_id, before, e, refl, taken)

pub debited_cases :
    (before billable : Money)
    → ((billable ≤ℤ before) × (debited before billable ≡ before -ℤ billable))
      ⊎ ((before <ℤ billable) × (debited before billable ≡ pos 0))
debited_cases before billable = ground (arith, -ℤ_parts before billable)

pub deduct-free :
    (runs : Runs) (w : Wallets) (input : UsageDebit)
    → is_positive input.billable_amount ≡ false
    → (deduct_user_wallet_usage runs w input).0 ≡ w
unfolding deduct_user_wallet_usage
deduct-free runs w input free = elim (Bool-cases (is_positive input.client_api_key_id)) [
  | inl k ↦ rw (k, free)
  | inr k ↦ rw k
]

usage_entry-IsSound :
    (w : Wallets) (user_id : ℤ) (before : Money) (input : UsageDebit)
    → lookup user_id w.balances ≡ some before
    → is_positive (to_four input.billable_amount) ≡ true
    → IsSound w (usage_entry user_id before input)
usage_entry-IsSound w user_id before input read taken =
    elim (debited_cases before input.billable_amount) [
      | inl (enough, e) ↦ record {
        before_read = read;
        recorded = taken;
        after_nonneg = λ _. rw e (omega (int_laws, enough));
        after_moved = inl (rw e (omega int_laws));
      }
      | inr (short, e) ↦ record {
        before_read = read;
        recorded = taken;
        after_nonneg = λ _. rw e (omega arith);
        after_moved = inr (refl, short, e);
      }
    ]

pub deduct-PostsOne :
    (runs : Runs) (w : Wallets) (input : UsageDebit)
    → PostsOne system w (deduct_user_wallet_usage runs w input)
deduct-PostsOne runs w input = elim (Bool-cases (is_positive input.billable_amount)) [
  | inl p ↦ elim (deduct-Posts runs w input p) [
    | inl kept ↦ inl kept
    | inr (e, (user_id, before, owned, e_is, taken), r) ↦
        let read = owner_wallet-read w input.client_api_key_id user_id before owned in
        inr (
          e,
          (
            rw e_is (
                usage_entry-IsSound w user_id before input read
                  (ap (λ x. is_positive (to_four x.amount)) (sym e_is) ∙ taken)),
            ap (λ x. x.operator_type) e_is,
          ),
          r,
        )
  ]
  | inr free ↦ inl (deduct-free runs w input free)
]
