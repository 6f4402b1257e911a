-- ===== src/Wallet/Ledger.antt =====
-- What the ledger of a user adds up to, and what posting an entry does to it
-- (backend/internal/repository/postgres/store.go).
use wcs_transfer.Base.{
  ℕ, ◌+◌, ◌≡◌, sym, ap, ◌∙◌, inl, inr, some, List, [], ◌∷◌, arith, if◌then◌else◌, Bool-cases, ℤ,
  pos, pos_part, neg_part, ◌+ℤ◌, ◌-ℤ◌, ◌≤ℤ◌, +ℤ_parts, -ℤ_parts, eqb_ℤ, eqb_ℤ_iff, int_eq, lookup,
  lookup-insert,
}
use wcs_transfer.Entity.{Money}
use wcs_transfer.Wallet.{Direction, credit, debit, LedgerEntry, Wallets, posted, to_eight, to_four}
use wcs_transfer.Wallet.Decimals.{
  Within, half_eighth, half_fourth, to_eight-Within, to_four-Within, to_eight-nonneg,
}

-- What an entry adds to a balance, by its direction and amount.
abbrev pub signed : Direction → Money → Money
signed credit amount = amount
signed debit amount = pos 0 -ℤ amount

-- The credits of a user less the debits: `ledger_net_amount` of the reconciliation query.
unfoldable pub ledger_net : ℤ → List LedgerEntry → Money
ledger_net user_id [] = pos 0
ledger_net user_id (e ∷ ledger) =
    if eqb_ℤ e.user_id user_id
    then signed e.direction e.amount +ℤ ledger_net user_id ledger
    else ledger_net user_id ledger

-- Equal amounts, as equal sums of numbers.
abbrev pub SameMoney : Money → Money → Type 0
SameMoney a b = pos_part a + neg_part b ≡ pos_part b + neg_part a

-- No balance is negative.
abbrev pub IsSolvent : Wallets → Type 0
IsSolvent w = (user_id : ℤ) (m : Money) → lookup user_id w.balances ≡ some m → pos 0 ≤ℤ m

-- Every balance is what the user's ledger adds up to, up to `k` ticks.
abbrev pub Agrees : ℕ → Wallets → Type 0
Agrees k w =
    (user_id : ℤ) (m : Money)
    → lookup user_id w.balances ≡ some m
    → Within k m (ledger_net user_id w.ledger)

pub posted-IsSolvent :
    (w : Wallets) (e : LedgerEntry)
    → IsSolvent w
    → pos 0 ≤ℤ e.balance_after
    → IsSolvent (posted w e)
posted-IsSolvent w e h after user_id m found =
    let stored = to_eight e.balance_after in
    let stays = to_eight-nonneg e.balance_after after in
    ground (arith, lookup-insert e.user_id user_id stored w.balances, h user_id m, stays)

-- How far one entry can take a balance from its ledger: the balance is rounded to eight decimals,
-- the amount to four.
abbrev pub drift : ℕ
drift = half_eighth + half_fourth

signed-Within : (d : Direction) (m : Money) → Within half_fourth (signed d (to_four m)) (signed d m)
signed-Within credit m = to_four-Within m
signed-Within debit m =
    let near = to_four-Within m in
    let before = -ℤ_parts (pos 0) m in
    let after = -ℤ_parts (pos 0) (to_four m) in
    (omega (arith, near.0, near.1, before, after), omega (arith, near.0, near.1, before, after))

pub posted-Agrees :
    (k : ℕ) (w : Wallets) (e : LedgerEntry)
    → Agrees k w
    → lookup e.user_id w.balances ≡ some e.balance_before
    → SameMoney e.balance_after (e.balance_before +ℤ signed e.direction e.amount)
    → Agrees (k + drift) (posted w e)
unfolding ledger_net
posted-Agrees k w e h before moved user_id m found =
    let stored = to_eight e.balance_after in
    let write = lookup-insert e.user_id user_id stored w.balances in
    elim (Bool-cases (eqb_ℤ e.user_id user_id)) [
      | inl same ↦
          let is_same : e.user_id ≡ user_id = (eqb_ℤ_iff e.user_id user_id).0 same in
          let m_after : m ≡ stored = ground (arith, write) in
          let old : Within k e.balance_before (ledger_net user_id w.ledger) =
            h user_id e.balance_before (ap (λ u. lookup u w.balances) (sym is_same) ∙ before) in
          let eighth = to_eight-Within e.balance_after in
          let fourth = signed-Within e.direction e.amount in
          let sum = +ℤ_parts e.balance_before (signed e.direction e.amount) in
          let net =
            +ℤ_parts (signed e.direction (to_four e.amount)) (ledger_net user_id w.ledger) in
          rw (same, m_after)
            (
              omega (arith, old.0, eighth.0, fourth.1, moved, sum, net),
              omega (arith, old.1, eighth.1, fourth.0, moved, sum, net),
            )
      | inr other ↦
          let kept : lookup user_id w.balances ≡ some m = ground (arith, write) in
          let near = h user_id m kept in rw other (omega (arith, near.0), omega (arith, near.1))
    ]
