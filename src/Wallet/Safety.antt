-- ===== src/Wallet/Safety.antt =====
-- Sequences of wallet calls (backend/internal/repository/postgres/store.go), with any failures.
use wcs_transfer.Base.{
  ℕ, ◌+◌, ◌*◌, ◌+ℤ◌, +ℤ_parts, length, ◌≡◌, refl, ◌∙◌, inl, inr, true, some, List, [], ◌∷◌, arith,
  Bool-cases, ℤ, pos, ◌-ℤ◌, ◌≤ℤ◌, ◌<ℤ◌, is_positive, int_laws, int_eq, lookup, lookup-insert,
  beq_refl,
}
use wcs_transfer.Entity.{Money}
use wcs_transfer.Wallet.{
  Wallets, Runs, Outcome, OperatorType, admin, system, done, posted, UsageDebit, usage_entry,
  debited, write_entry, owner_wallet, deduct_user_wallet_usage, to_eight, to_four,
}
use wcs_transfer.Wallet.Decimals.{half_fourth, to_four-Within, to_four-recorded, to_eight-zero}
use wcs_transfer.Wallet.Ledger.{
  ledger_net, SameMoney, IsSolvent, Agrees, posted-IsSolvent, drift, posted-Agrees,
}
use wcs_transfer.Wallet.Laws.{
  WalletCall, adjust, correct, deduct, call, PostsOne, adjust-PostsOne, correct-PostsOne,
}
use wcs_transfer.Wallet.Debits.{
  deduct-Posts, deduct-PostsOne, debited_cases, deduct-free, owner_wallet-read,
}

abbrev pub operator_of : WalletCall → OperatorType
operator_of (adjust _ _ _) = admin
operator_of (correct _ _ _ _) = admin
operator_of (deduct _) = system

-- Whatever statements fail, a call on the wallets leaves balances and ledger as they were, or it
-- succeeds and posts one entry, at the balance that was there and with an amount that is still
-- positive when it is rounded to four decimals. The new balance is the entry's balance after it to
-- eight decimals, and the ledger's row has the amount and both balances to four. The balance after
-- is not negative if none was, and before it is rounded it differs from the one before by the
-- amount, unless a debit for usage asks for more than there is and leaves nothing.
pub call-PostsOne :
    (runs : Runs) (c : WalletCall) (w : Wallets) → PostsOne (operator_of c) w (call runs c w)
unfolding call
call-PostsOne runs (adjust user_id amount op) w = adjust-PostsOne runs w user_id amount op
call-PostsOne runs (correct user_id amount note op) w =
    correct-PostsOne runs w user_id amount note op
call-PostsOne runs (deduct input) w = deduct-PostsOne runs w input

-- Calls one after the other, each with the statements that run for it.
unfoldable pub run_calls : List (Runs × WalletCall) → Wallets → Wallets
run_calls [] w = w
run_calls ((runs, c) ∷ cs) w = run_calls cs (call runs c w).0

call-IsSolvent :
    (runs : Runs) (c : WalletCall) (w : Wallets) → IsSolvent w → IsSolvent (call runs c w).0
call-IsSolvent runs c w h = elim (call-PostsOne runs c w) [
  | inl kept ↦ rw kept h
  | inr (e, (sound, _), r) ↦ rw r (posted-IsSolvent w e h (sound.after_nonneg h))
]

-- No sequence of calls, with any failures, makes a balance negative that was not.
pub run_calls-IsSolvent :
    (cs : List (Runs × WalletCall)) (w : Wallets) → IsSolvent w → IsSolvent (run_calls cs w)
unfolding run_calls
run_calls-IsSolvent [] w h = h
run_calls-IsSolvent ((runs, c) ∷ cs) w h =
    run_calls-IsSolvent cs (call runs c w).0 (call-IsSolvent runs c w h)

-- A debit for usage asks for no more than its owner's wallet holds.
abbrev pub IsCovered : WalletCall → Wallets → Type 0
IsCovered (adjust _ _ _) w = Unit
IsCovered (correct _ _ _ _) w = Unit
IsCovered (deduct input) w =
    (user_id : ℤ) (before : Money)
    → owner_wallet w input.client_api_key_id ≡ some (user_id, before)
    → input.billable_amount ≤ℤ before

abbrev pub AllCovered : List (Runs × WalletCall) → Wallets → Type 0
AllCovered [] w = Unit
AllCovered ((runs, c) ∷ cs) w = IsCovered c w × AllCovered cs (call runs c w).0

Agrees-mono : (k n : ℕ) (w : Wallets) → Agrees k w → Agrees (k + n) w
Agrees-mono k n w h user_id m found =
    let near = h user_id m found in (omega (arith, near.0), omega (arith, near.1))

admin-Agrees :
    (k : ℕ) (w : Wallets) (r : Wallets × Outcome)
    → PostsOne admin w r
    → Agrees k w
    → Agrees (k + drift) r.0
admin-Agrees k w r (inl kept) h = rw kept (Agrees-mono k drift w h)
admin-Agrees k w r (inr (e, (sound, by_admin), posts)) h = rw posts (elim (sound.after_moved) [
  | inl moved ↦ posted-Agrees k w e h sound.before_read moved
  | inr (by_system, _, _) ↦ absurd (ground arith)
])

-- An entry for usage that the wallet covers.
covered-Agrees :
    (k : ℕ) (w : Wallets) (input : UsageDebit) (user_id : ℤ) (before : Money)
    → Agrees k w
    → owner_wallet w input.client_api_key_id ≡ some (user_id, before)
    → input.billable_amount ≤ℤ before
    → Agrees (k + drift) (posted w (usage_entry user_id before input))
covered-Agrees k w input user_id before h owned enough =
    posted-Agrees k w (usage_entry user_id before input) h
      (owner_wallet-read w input.client_api_key_id user_id before owned)
      (elim (debited_cases before input.billable_amount) [
        | inl (_, e) ↦ rw e (omega int_laws)
        | inr (short, _) ↦ absurd (omega (arith, enough, short))
      ])

pub deduct-Agrees :
    (k : ℕ) (runs : Runs) (input : UsageDebit) (w : Wallets)
    → IsCovered (deduct input) w
    → Agrees k w
    → Agrees (k + drift) (deduct_user_wallet_usage runs w input).0
deduct-Agrees k runs input w covered h = elim (Bool-cases (is_positive input.billable_amount)) [
  | inl p ↦ elim (deduct-Posts runs w input p) [
    | inl kept ↦ rw kept (Agrees-mono k drift w h)
    | inr (e, (user_id, before, owned, e_is, _), r) ↦
        rw r
          (rw e_is (covered-Agrees k w input user_id before h owned (covered user_id before owned)))
  ]
  | inr free ↦ rw (deduct-free runs w input free) (Agrees-mono k drift w h)
]

call-Agrees :
    (k : ℕ) (runs : Runs) (c : WalletCall) (w : Wallets)
    → IsCovered c w
    → Agrees k w
    → Agrees (k + drift) (call runs c w).0
unfolding call
call-Agrees k runs (adjust user_id amount op) w _ h =
    admin-Agrees k w _ (adjust-PostsOne runs w user_id amount op) h
call-Agrees k runs (correct user_id amount note op) w _ h =
    admin-Agrees k w _ (correct-PostsOne runs w user_id amount note op) h
call-Agrees k runs (deduct input) w covered h = deduct-Agrees k runs input w covered h

-- Balances drift from the ledger by rounding only: if each is within `k` ticks of 10^-16 dollars of
-- what the ledger adds up to, then after any sequence of calls, with any failures, each is within
-- `k` and, for each call, half of the eighth and half of the fourth decimal of a dollar, as long as
-- no debit for usage asks for more than the wallet holds at its time.
pub run_calls-Agrees :
    (k : ℕ) (cs : List (Runs × WalletCall)) (w : Wallets)
    → AllCovered cs w
    → Agrees k w
    → Agrees (k + length cs * drift) (run_calls cs w)
unfolding run_calls
run_calls-Agrees k [] w _ h user_id m found =
    let near = h user_id m found in (omega (arith, near.0), omega (arith, near.1))
run_calls-Agrees k ((runs, c) ∷ cs) w (covered, rest) h user_id m found =
    let near =
      run_calls-Agrees (k + drift) cs (call runs c w).0 rest (call-Agrees k runs c w covered h)
        user_id m found in
    (omega (arith, near.0), omega (arith, near.1))

abbrev pub all_run : Runs
all_run _ = true

deduct_posts :
    (w : Wallets) (input : UsageDebit) (user_id : ℤ) (before : Money)
    → is_positive input.client_api_key_id ≡ true
    → is_positive input.billable_amount ≡ true
    → is_positive (to_four input.billable_amount) ≡ true
    → owner_wallet w input.client_api_key_id ≡ some (user_id, before)
    → deduct_user_wallet_usage all_run w input ≡ (posted w (usage_entry user_id before input), done)
unfolding deduct_user_wallet_usage write_entry
deduct_posts w input user_id before keyed billed taken owned = rw (keyed, billed, owned, taken)

-- Where a debit for usage asks for more than a wallet holds by over half of the fourth decimal of a
-- dollar, and all statements run, the balance becomes zero, while the ledger, which agreed with it,
-- goes below zero: to the balance from before less the bill to four decimals. The two no longer
-- agree.
pub deduct_shortfall :
    (w : Wallets) (input : UsageDebit) (user_id : ℤ) (before : Money)
    → IsSolvent w
    → Agrees 0 w
    → is_positive input.client_api_key_id ≡ true
    → owner_wallet w input.client_api_key_id ≡ some (user_id, before)
    → before +ℤ pos half_fourth <ℤ input.billable_amount
    → let (w', outcome) = deduct_user_wallet_usage all_run w input in
      (outcome ≡ done)
      × (lookup user_id w'.balances ≡ some (pos 0))
      × SameMoney (ledger_net user_id w'.ledger) (before -ℤ to_four input.billable_amount)
      × (ledger_net user_id w'.ledger <ℤ pos 0)
unfolding ledger_net
deduct_shortfall w input user_id before solvent h keyed owned short =
    let read = owner_wallet-read w input.client_api_key_id user_id before owned in
    let net = h user_id before read in
    let bill = input.billable_amount in
    let room = solvent user_id before read in
    let sum = +ℤ_parts before (pos half_fourth) in
    let large : pos half_fourth ≤ℤ bill = omega (arith, room, sum, short) in
    let billed : is_positive bill ≡ true = ground arith in
    let near = to_four-Within bill in
    let nothing : to_eight (debited before bill) ≡ pos 0 = elim (debited_cases before bill) [
      | inl (enough, _) ↦ absurd (omega (arith, enough, sum, short))
      | inr (_, e) ↦ rw e to_eight-zero
    ] in
    rw (deduct_posts w input user_id before keyed billed (to_four-recorded bill large) owned) (
      refl,
      lookup-insert user_id user_id (to_eight (debited before bill)) w.balances
          ∙ rw (beq_refl user_id, nothing),
      rw (beq_refl user_id) (omega (int_laws, net.0, net.1)),
      rw (beq_refl user_id) (omega (int_laws, net.0, net.1, sum, short, near.0, near.1)),
    )
