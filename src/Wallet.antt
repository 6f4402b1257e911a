-- ===== src/Wallet.antt =====
-- The user wallets and their ledger (backend/internal/repository/postgres/store.go): the admin's
-- credits and corrections, and the debit for a request's usage.
--
-- The tables are PostgreSQL's: `tenant_users` with the balances, `client_api_keys` with the owners,
-- and `tenant_wallet_ledger`. A statement may fail at any stage, which the argument `runs` says.
-- What a transaction wrote is kept by a commit that succeeds, and dropped by the deferred rollback
-- otherwise: that is PostgreSQL's promise, and here the writes are made on a copy.
--
-- The columns round what is written to them (backend/migrations/0009, 0010, 0011, 0013 and 0017):
-- a balance to eight decimals, the amount and the two balances of a ledger row to four, its costs to
-- eight. That these NUMERIC columns have at most ten digits before the point is left out, and so is
-- `CHECK (wallet_balance >= 0)`, since each call tests the new balance itself.
use wcs_transfer.Base.{
  Bool, not, ◌||◌, Option, none, some, List, ◌∷◌, if◌then◌else◌, ℕ, ◌+◌, ◌*◌, ◌/◌, ℤ, pos, negsuc,
  ◌+ℤ◌, ◌-ℤ◌, ltb_ℤ, eqb_ℤ, is_positive, Text, is_empty, trim_space, int_eq, Table, lookup, insert,
}
pub mod Decimals
pub mod Ledger
pub mod Laws
pub mod Debits
pub mod Safety
pub mod Small
pub mod Columns
pub mod Undone
use wcs_transfer.Entity.{Money}

pub data Direction : Type 0 where
  credit debit : Direction

pub data OperatorType : Type 0 where
  admin system : OperatorType

pub record LedgerEntry : Type 0 where
  pub user_id : ℤ
  pub direction : Direction
  pub amount : Money
  pub balance_before : Money
  pub balance_after : Money
  pub operator_type : OperatorType
  pub operator_user_id : ℤ
  pub request_log_id : ℤ
  pub total_tokens : ℤ
  pub reserved_amount : Money
  pub cost_amount : Money
  pub billable_amount : Money

pub record Wallets : Type 0 where
  pub balances : Table ℤ Money
  pub owners : Table ℤ ℤ
  pub ledger : List LedgerEntry

-- The statements of a transaction, in their order.
pub data Stage : Type 0 where
  begin load_wallet update_wallet insert_ledger commit : Stage

-- A number of ticks to the nearest multiple of the unit; half a unit is rounded up.
abbrev pub rounded : ℕ → ℕ → ℕ
rounded unit n = (n + unit / 2) / unit * unit

-- PostgreSQL rounds a NUMERIC half away from zero.
abbrev round_to : ℕ → Money → Money
round_to unit (pos n) = pos (rounded unit n)
round_to unit (negsuc n) = pos 0 -ℤ pos (rounded unit (n + 1))

-- An amount in a column with eight decimals, as `wallet_balance NUMERIC(18, 8)`.
unfoldable pub to_eight : Money → Money
to_eight = round_to 100_000_000

-- An amount in a column with four decimals, as `amount NUMERIC(14, 4)` of the ledger.
unfoldable pub to_four : Money → Money
to_four = round_to 1_000_000_000_000

abbrev pub Runs : Type 0
Runs = Stage → Bool

pub data Outcome : Type 0 where
  done : Outcome
  bad_amount : Outcome
  note_required : Outcome
  no_wallet : Outcome
  negative_balance : Outcome
  failed : Stage → Outcome

-- One statement: if it fails, so does the call, with the database as it was.
abbrev pub stage : Runs → Stage → Wallets → Wallets × Outcome → Wallets × Outcome
stage runs st w rest = if runs st then rest else (w, failed st)

-- The row that an INSERT of these values stores.
abbrev pub ledger_row : LedgerEntry → LedgerEntry
ledger_row entry = record entry {
  amount = to_four entry.amount;
  balance_before = to_four entry.balance_before;
  balance_after = to_four entry.balance_after;
  reserved_amount = to_eight entry.reserved_amount;
  cost_amount = to_eight entry.cost_amount;
  billable_amount = to_eight entry.billable_amount;
}

-- The tables after the UPDATE and the INSERT with the entry's values.
abbrev pub posted : Wallets → LedgerEntry → Wallets
posted w entry = record w {
  balances = insert entry.user_id (to_eight entry.balance_after) w.balances;
  ledger = ledger_row entry ∷ w.ledger;
}

-- The writes of a transaction that has read the balance `before`, up to the commit. The ledger takes
-- no row whose amount is not positive once it is rounded: `CHECK (amount > 0)`.
unfoldable pub write_entry : Runs → Wallets → LedgerEntry → Wallets × Outcome
write_entry runs w entry = stage runs update_wallet w (
    stage runs insert_ledger w (
      if is_positive (to_four entry.amount)
      then stage runs commit w (posted w entry, done)
      else (w, failed insert_ledger)))

-- The values that the INSERT of a change by an admin is given.
abbrev pub admin_entry : ℤ → Direction → Money → Money → Money → ℤ → LedgerEntry
admin_entry user_id direction amount before after operator_id = record {
  user_id = user_id;
  direction = direction;
  amount = amount;
  balance_before = before;
  balance_after = after;
  operator_type = admin;
  operator_user_id = operator_id;
  request_log_id = pos 0;
  total_tokens = pos 0;
  reserved_amount = pos 0;
  cost_amount = pos 0;
  billable_amount = pos 0;
}

-- The balance after a change by an admin, unless the change would make it negative.
unfoldable pub admin_balance : Direction → Money → Money → Option Money
admin_balance credit before amount = some (before +ℤ amount)
admin_balance debit before amount =
    let after = before -ℤ amount in if ltb_ℤ after (pos 0) then none else some after

unfoldable pub apply_user_wallet_admin_change :
    Runs → Wallets → ℤ → Direction → Money → ℤ → Wallets × Outcome
apply_user_wallet_admin_change runs w user_id direction amount operator_id = stage runs begin w (
    stage runs load_wallet w (elim (lookup user_id w.balances) [
      | none ↦ (w, no_wallet)
      | some before ↦ elim (admin_balance direction before amount) [
        | none ↦ (w, negative_balance)
        | some after ↦
            write_entry runs w (admin_entry user_id direction amount before after operator_id)
      ]
    ]))

unfoldable pub adjust_user_wallet : Runs → Wallets → ℤ → Money → ℤ → Wallets × Outcome
adjust_user_wallet runs w user_id amount operator_id =
    if is_positive amount
    then apply_user_wallet_admin_change runs w user_id credit amount operator_id
    else (w, bad_amount)

unfoldable pub correct_user_wallet : Runs → Wallets → ℤ → Money → Text → ℤ → Wallets × Outcome
correct_user_wallet runs w user_id amount note operator_id =
    if eqb_ℤ amount (pos 0)
    then (w, bad_amount)
    else (if is_empty (trim_space note)
        then (w, note_required)
        else (if ltb_ℤ amount (pos 0)
            then apply_user_wallet_admin_change runs w user_id debit (pos 0 -ℤ amount) operator_id
            else apply_user_wallet_admin_change runs w user_id credit amount operator_id))

pub record UsageDebit : Type 0 where
  pub client_api_key_id : ℤ
  pub request_log_id : ℤ
  pub total_tokens : ℤ
  pub reserved_amount : Money
  pub cost_amount : Money
  pub billable_amount : Money

-- `before - input.BillableAmount`, and never less than zero.
abbrev pub debited : Money → Money → Money
debited before billable =
    let after = before -ℤ billable in if ltb_ℤ after (pos 0) then pos 0 else after

-- The values that the INSERT of a debit for usage is given.
abbrev pub usage_entry : ℤ → Money → UsageDebit → LedgerEntry
usage_entry user_id before input = record {
  user_id = user_id;
  direction = debit;
  amount = input.billable_amount;
  balance_before = before;
  balance_after = debited before input.billable_amount;
  operator_type = system;
  operator_user_id = pos 0;
  request_log_id = input.request_log_id;
  total_tokens = input.total_tokens;
  reserved_amount = input.reserved_amount;
  cost_amount = input.cost_amount;
  billable_amount = input.billable_amount;
}

-- The join of a client key with the wallet of its owner.
abbrev pub owner_wallet : Wallets → ℤ → Option (ℤ × Money)
owner_wallet w key_id = elim (lookup key_id w.owners) [
  | none ↦ none
  | some user_id ↦ elim (lookup user_id w.balances) [
    | none ↦ none
    | some before ↦ some (user_id, before)
  ]
]

-- A key without an owner, or with none that exists, is no error: nothing is debited.
unfoldable pub deduct_user_wallet_usage : Runs → Wallets → UsageDebit → Wallets × Outcome
deduct_user_wallet_usage runs w input =
    if not (is_positive input.client_api_key_id) || not (is_positive input.billable_amount)
    then (w, done)
    else (stage runs begin w (
        stage runs load_wallet w (elim (owner_wallet w input.client_api_key_id) [
          | none ↦ (w, done)
          | some (user_id, before) ↦ write_entry runs w (usage_entry user_id before input)
        ])))
