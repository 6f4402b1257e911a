-- ===== src/Wallet/Laws.antt =====
-- What every wallet call of backend/internal/repository/postgres/store.go keeps, also where a
-- statement fails, and what it does to the agreement of balances and ledger.
use wcs_transfer.Base.{
  ◌≡◌, refl, ◌⊎◌, inl, inr, Bool, true, false, Option, none, some, arith, if◌then◌else◌, Bool-cases,
  ℤ, pos, ◌+ℤ◌, ◌-ℤ◌, ◌≤ℤ◌, ◌<ℤ◌, ltb_ℤ, eqb_ℤ, is_positive, int_laws, Text, is_empty, trim_space,
  int_eq, lookup,
}
use wcs_transfer.Entity.{Money}
use wcs_transfer.Wallet.{
  Direction, credit, debit, LedgerEntry, Wallets, Stage, Runs, Outcome, OperatorType, admin, system,
  done, no_wallet, negative_balance, failed, posted, to_four, write_entry, admin_entry,
  admin_balance, apply_user_wallet_admin_change, adjust_user_wallet, correct_user_wallet,
  UsageDebit, deduct_user_wallet_usage,
}
use wcs_transfer.Wallet.Ledger.{signed, SameMoney, IsSolvent}

-- A call on the wallets.
pub data WalletCall : Type 0 where
  adjust : ℤ → Money → ℤ → WalletCall
  correct : ℤ → Money → Text → ℤ → WalletCall
  deduct : UsageDebit → WalletCall

unfoldable pub call : Runs → WalletCall → Wallets → Wallets × Outcome
call runs (adjust user_id amount operator_id) w =
    adjust_user_wallet runs w user_id amount operator_id
call runs (correct user_id amount note operator_id) w =
    correct_user_wallet runs w user_id amount note operator_id
call runs (deduct input) w = deduct_user_wallet_usage runs w input

-- An entry with the balance as it is, an amount that the ledger takes, and a balance after it that
-- is not negative if none was. The amount is the difference of the two, before anything is rounded,
-- unless a debit by the system asks for more than there is: then nothing is left.
pub record IsSound (w : Wallets) (e : LedgerEntry) : Type 0 where
  pub before_read : lookup e.user_id w.balances ≡ some e.balance_before
  pub recorded : is_positive (to_four e.amount) ≡ true
  pub after_nonneg : IsSolvent w → pos 0 ≤ℤ e.balance_after
  pub after_moved :
      SameMoney e.balance_after (e.balance_before +ℤ signed e.direction e.amount)
      ⊎ ((e.operator_type ≡ system) × (e.balance_before <ℤ e.amount) × (e.balance_after ≡ pos 0))

-- What a call did: nothing to the tables, or it posted one entry as described, and succeeded.
abbrev pub Posts : (LedgerEntry → Type 0) → Wallets → Wallets × Outcome → Type 0
Posts P w r = (r.0 ≡ w) ⊎ ((e : LedgerEntry) × P e × (r ≡ (posted w e, done)))

pub write_entry-Posts :
    (P : LedgerEntry → Type 0) (runs : Runs) (w : Wallets) (e : LedgerEntry)
    → (is_positive (to_four e.amount) ≡ true → P e)
    → Posts P w (write_entry runs w e)
unfolding write_entry
write_entry-Posts P runs w e s = elim (Bool-cases (runs Stage.update_wallet)) [
  | inr h ↦ inl (rw h)
  | inl h ↦ elim (Bool-cases (runs Stage.insert_ledger)) [
    | inr k ↦ inl (rw (h, k))
    | inl k ↦ elim (Bool-cases (is_positive (to_four e.amount))) [
      | inr zero_amount ↦ inl (rw (h, k, zero_amount))
      | inl taken ↦ elim (Bool-cases (runs Stage.commit)) [
        | inr l ↦ inl (rw (h, k, taken, l))
        | inl l ↦ inr (e, s taken, rw (h, k, taken, l))
      ]
    ]
  ]
]

-- A stage that fails leaves the tables; one that runs does what follows it.
pub stage-Posts :
    (P : LedgerEntry → Type 0) (b : Bool) (st : Stage) (w : Wallets) (rest : Wallets × Outcome)
    → Posts P w rest
    → Posts P w (if b then rest else (w, failed st))
stage-Posts P true st w rest h = h
stage-Posts P false st w rest h = inl refl

-- A sound entry by an admin.
abbrev pub SoundBy : OperatorType → Wallets → LedgerEntry → Type 0
SoundBy operator w e = IsSound w e × (e.operator_type ≡ operator)

abbrev pub PostsOne : OperatorType → Wallets → Wallets × Outcome → Type 0
PostsOne operator w = Posts (SoundBy operator w) w

admin_debit :
    (before amount after : Money)
    → admin_balance debit before amount ≡ some after
    → (after ≡ before -ℤ amount) × (pos 0 ≤ℤ after)
unfolding admin_balance
admin_debit before amount after h = ground arith

admin_entry-IsSound :
    (w : Wallets) (user_id : ℤ) (direction : Direction) (amount before after : Money) (op : ℤ)
    → pos 0 ≤ℤ amount
    → lookup user_id w.balances ≡ some before
    → admin_balance direction before amount ≡ some after
    → is_positive (to_four amount) ≡ true
    → IsSound w (admin_entry user_id direction amount before after op)
unfolding admin_balance
admin_entry-IsSound w user_id credit amount before after op p read h taken =
    let is_after : before +ℤ amount ≡ after = ground arith in
    record {
      before_read = read;
      recorded = taken;
      after_nonneg = λ solvent. rw (← is_after) (omega (int_laws, solvent user_id before read));
      after_moved = inl (rw (← is_after) (omega int_laws));
    }
admin_entry-IsSound w user_id debit amount before after op p read h taken =
    let (is_after, room) = admin_debit before amount after h in
    record {
      before_read = read;
      recorded = taken;
      after_nonneg = λ solvent. room;
      after_moved = inl (rw is_after (omega int_laws));
    }

apply-PostsOne :
    (runs : Runs) (w : Wallets) (user_id : ℤ) (direction : Direction) (amount : Money) (op : ℤ)
    → pos 0 ≤ℤ amount
    → PostsOne admin w (apply_user_wallet_admin_change runs w user_id direction amount op)
unfolding apply_user_wallet_admin_change
apply-PostsOne runs w user_id direction amount op p =
    stage-Posts (SoundBy admin w) (runs Stage.begin) Stage.begin w _ (
      stage-Posts (SoundBy admin w) (runs Stage.load_wallet) Stage.load_wallet w _
        (go (lookup user_id w.balances) refl))
  where
    go' :
        (before : Money)
        → lookup user_id w.balances ≡ some before
        → (o : Option Money) → admin_balance direction before amount ≡ o
        → PostsOne admin w (elim o [
          | none ↦ (w, negative_balance)
          | some after ↦ write_entry runs w (admin_entry user_id direction amount before after op)
        ])
    go' before read none e = inl refl
    go' before read (some after) e = write_entry-Posts (SoundBy admin w) runs w _ λ taken.
        (admin_entry-IsSound w user_id direction amount before after op p read e taken, refl)

    go :
        (o : Option Money)
        → lookup user_id w.balances ≡ o
        → PostsOne admin w (elim o [
          | none ↦ (w, no_wallet)
          | some before ↦ elim (admin_balance direction before amount) [
            | none ↦ (w, negative_balance)
            | some after ↦ write_entry runs w (admin_entry user_id direction amount before after op)
          ]
        ])
    go none e = inl refl
    go (some before) e = go' before e (admin_balance direction before amount) refl

pub adjust-PostsOne :
    (runs : Runs) (w : Wallets) (user_id : ℤ) (amount : Money) (op : ℤ)
    → PostsOne admin w (adjust_user_wallet runs w user_id amount op)
unfolding adjust_user_wallet
adjust-PostsOne runs w user_id amount op = elim (Bool-cases (is_positive amount)) [
  | inl p ↦ rw p (apply-PostsOne runs w user_id credit amount op (ground arith))
  | inr n ↦ rw n (inl refl)
]

pub correct-PostsOne :
    (runs : Runs) (w : Wallets) (user_id : ℤ) (amount : Money) (note : Text) (op : ℤ)
    → PostsOne admin w (correct_user_wallet runs w user_id amount note op)
unfolding correct_user_wallet
correct-PostsOne runs w user_id amount note op = elim (Bool-cases (eqb_ℤ amount (pos 0))) [
  | inl z ↦ rw z (inl refl)
  | inr nz ↦ elim (Bool-cases (is_empty (trim_space note))) [
    | inl e ↦ rw (nz, e) (inl refl)
    | inr ne ↦ elim (Bool-cases (ltb_ℤ amount (pos 0))) [
      | inl neg ↦
          rw (nz, ne, neg)
            (apply-PostsOne runs w user_id debit (pos 0 -ℤ amount) op (grind int_laws))
      | inr n ↦ rw (nz, ne, n) (apply-PostsOne runs w user_id credit amount op (ground arith))
    ]
  ]
]
