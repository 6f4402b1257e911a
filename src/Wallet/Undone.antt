-- ===== src/Wallet/Undone.antt =====
-- A credit of an administrator and the debit that undoes it
-- (backend/internal/repository/postgres/store.go: `AdjustUserWallet`, `CorrectUserWallet`,
-- `applyUserWalletAdminChange`).
use wcs_transfer.Base.{
  ◌≡◌, refl, ap, inl, inr, Bool-cases, true, false, some, Option-cases, arith, ℤ, pos, ◌+ℤ◌, ◌-ℤ◌,
  ◌≤ℤ◌, eqb_ℤ, eqb_ℤ_iff, ltb_ℤ, is_positive, int_laws, int_eq, -ℤ_parts, eq_of_parts, Text,
  is_empty, trim_space, lookup, lookup-insert,
}
use wcs_transfer.Entity.{Money}
use wcs_transfer.Wallet.{
  credit, debit, Wallets, Runs, done, posted, admin_entry, apply_user_wallet_admin_change,
  adjust_user_wallet, correct_user_wallet, write_entry, admin_balance, LedgerEntry, to_eight,
  to_four,
}
use wcs_transfer.Wallet.Decimals.{HasEight}
use wcs_transfer.Wallet.Ledger.{ledger_net, SameMoney}
use wcs_transfer.Wallet.Safety.{all_run}

write_entry-done :
    (runs : Runs) (w : Wallets) (entry : LedgerEntry)
    → (write_entry runs w entry).1 ≡ done
    → (write_entry runs w entry).0 ≡ posted w entry
unfolding write_entry
write_entry-done runs w entry e = ground (arith, e)

write_entry-recorded :
    (runs : Runs) (w : Wallets) (entry : LedgerEntry)
    → (write_entry runs w entry).1 ≡ done
    → is_positive (to_four entry.amount) ≡ true
unfolding write_entry
write_entry-recorded runs w entry e = ground (arith, e)

module _ (w : Wallets) (id : ℤ) (amount : Money) (operator_id : ℤ) where
  -- What a credit that goes through leaves.
  pub credit-done :
      (runs : Runs)
      → (adjust_user_wallet runs w id amount operator_id).1 ≡ done
      → (is_positive amount ≡ true)
        × (is_positive (to_four amount) ≡ true)
        × (before : Money) × (lookup id w.balances ≡ some before)
        × ((adjust_user_wallet runs w id amount operator_id).0
            ≡ posted w (admin_entry id credit amount before (before +ℤ amount) operator_id))
  unfolding adjust_user_wallet apply_user_wallet_admin_change admin_balance
  credit-done runs e = elim (Bool-cases (is_positive amount)) [
    | inr p ↦ absurd (ground (arith, e, p))
    | inl p ↦ elim (Option-cases (lookup id w.balances)) [
      | inl n ↦ absurd (ground (arith, e, p, n))
      | inr (before, at) ↦
          let entry = admin_entry id credit amount before (before +ℤ amount) operator_id in
          (
            p,
            ground (arith, e, p, at, write_entry-recorded runs w entry),
            before,
            at,
            ground (arith, e, p, at, write_entry-done runs w entry),
          )
    ]
  ]

module _ (w : Wallets) (id : ℤ) (amount : Money) (operator_id : ℤ) where
  -- A debit by a correction that the balance covers.
  pub correct-debits :
      (balance : Money) (note : Text)
      → is_positive amount ≡ true
      → is_positive (to_four amount) ≡ true
      → is_empty (trim_space note) ≡ false
      → lookup id w.balances ≡ some balance
      → amount ≤ℤ balance
      → correct_user_wallet all_run w id (pos 0 -ℤ amount) note operator_id
        ≡ (posted w (admin_entry id debit amount balance (balance -ℤ amount) operator_id), done)
  unfolding correct_user_wallet apply_user_wallet_admin_change admin_balance write_entry
  correct-debits balance note p taken blank at covers =
      let back : pos 0 -ℤ (pos 0 -ℤ amount) ≡ amount = eq_of_parts _ _ (omega int_laws) in
      let moved = -ℤ_parts (pos 0) amount in
      let nonzero : eqb_ℤ (pos 0 -ℤ amount) (pos 0) ≡ false = ground (arith, moved) in
      let negative : ltb_ℤ (pos 0 -ℤ amount) (pos 0) ≡ true = ground (arith, moved) in
      let covered : ltb_ℤ (balance -ℤ amount) (pos 0) ≡ false =
        ground (arith, -ℤ_parts balance amount) in
      ground (arith, nonzero, blank, taken, negative, back, at, covered)

  -- The debit undoes the credit, in the balances and in the ledger's net, where the balances before
  -- and after have eight decimals.
  pub undone :
      (before : Money) (w' : Wallets)
      → HasEight before
      → HasEight (before +ℤ amount)
      → lookup id w.balances ≡ some before
      → w'
        ≡ posted (posted w (admin_entry id credit amount before (before +ℤ amount) operator_id)) (
            admin_entry id debit amount (before +ℤ amount) (before +ℤ amount -ℤ amount) operator_id)
      → (user : ℤ)
      → (lookup user w'.balances ≡ lookup user w.balances)
        × (SameMoney (ledger_net user w'.ledger) (ledger_net user w.ledger))
  unfolding ledger_net
  undone before w' exact exact' at e user =
      let back : before +ℤ amount -ℤ amount ≡ before = eq_of_parts _ _ (omega int_laws) in
      let first = lookup-insert id user (to_eight (before +ℤ amount)) w.balances in
      let credited =
        (posted w (admin_entry id credit amount before (before +ℤ amount) operator_id)) in
      let second =
        lookup-insert id user (to_eight (before +ℤ amount -ℤ amount)) credited.balances in
      let restored : to_eight (before +ℤ amount -ℤ amount) ≡ before = rw back exact in
      rw e (elim (Bool-cases (eqb_ℤ id user)) [
        | inl same ↦
            let is_same = (eqb_ℤ_iff id user).0 same in
            (
              ground
                  (arith, same, first, second, restored, at, ap (λ u. lookup u w.balances) is_same),
              rw same (omega int_laws),
            )
        | inr other ↦ (ground (arith, other, first, second), rw other refl)
      ])
