-- ===== src/Wallet/Columns.antt =====
-- What the columns of the wallet tables promise of every row
-- (backend/internal/repository/postgres/store.go; backend/migrations/0009 and 0017).
use wcs_transfer.Base.{◌≡◌, true, some, All, ℤ, is_positive, int_eq, lookup}
use wcs_transfer.Entity.{Money}
use wcs_transfer.Wallet.{LedgerEntry, Wallets, to_four}
use wcs_transfer.Wallet.Decimals.{HasEight}

-- Balances with at most eight decimals.
abbrev pub AllEight : Wallets → Type 0
AllEight w = (user_id : ℤ) (m : Money) → lookup user_id w.balances ≡ some m → HasEight m

-- A positive amount with at most four decimals.
abbrev pub IsRow : LedgerEntry → Type 0
IsRow e = (is_positive e.amount ≡ true) × (to_four e.amount ≡ e.amount)

abbrev pub IsStored : Wallets → Type 0
IsStored w = AllEight w × All IsRow w.ledger
