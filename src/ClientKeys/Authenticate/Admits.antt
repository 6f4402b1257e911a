-- ===== src/ClientKeys/Authenticate/Admits.antt =====
-- Whom the store lets in, and against which budgets
-- (backend/internal/repository/postgres/store.go: `AuthenticateClientAPIKey`;
-- backend/internal/middleware/public_api_auth.go; backend/internal/api/openai/handler.go:
-- `clientKeyBudgetExceeded`).
use wcs_transfer.Base.{
  ℕ, suc, ◌≡◌, ap, ◌↔◌, inl, inr, ◌⊎◌, Bool, true, false, Bool-cases, Option, some, Option-cases,
  List, [], ◌∷◌, arith, get_elem?, ltb_ℤ, pos, Text, codes, is_empty, trim_space, text_eq_iff,
}
use wcs_transfer.Entity.{ClientApiKey}
use wcs_transfer.Access.{client_key_budget_exceeded}
use wcs_transfer.Auth.{KeyFields, extract_client_api_key, public_api_auth}
use wcs_transfer.Auth.Payers.{IsPayer, context_key, public_api_auth-IsPayer}
use wcs_transfer.KeyCosts.Budget.{is_some, IsSpent, budget_exceeded_iff}
use wcs_transfer.ClientKeys.{
  KeyRow, Tables, authenticate, Session, KeyResult, found, failed, no_rows, Given,
  hash_client_api_key, find, item_of, or_default, spent_since, scan_client_api_key,
}
use wcs_transfer.ClientKeys.Authenticate.{
  admits, has_active_user, used_row, authenticate_client_api_key, key_of,
}

find_lem {ℓ} :
    {A : Type ℓ} (p : A → Bool) (xs : List A) (x : A)
    → find p xs ≡ some x
    → ((i : ℕ) × (get_elem? xs i ≡ some x)) × (p x ≡ true)
unfolding find
find_lem p [] x h = absurd (ground (arith, h))
find_lem p (y ∷ ys) x h = elim (Bool-cases (p y)) [
  | inl e ↦ ((0, ground (arith, h, e)), ground (arith, h, e))
  | inr e ↦ let ((i, at), holds) = find_lem p ys x (ground (arith, h, e)) in ((suc i, at), holds)
]

-- A row of the table with the hash, active, not expired, and of no user or an active one.
abbrev pub IsAdmitted : Given → Session → Tables → Text → KeyRow → Type 0
IsAdmitted given session t raw_key row =
    ((i : ℕ) × (get_elem? t.keys i ≡ some row))
    × (row.key_hash ≡ hash_client_api_key given raw_key)
    × (row.status ≡ codes "active")
    × (or_default row.expires_at true (λ expires. ltb_ℤ session.now expires) ≡ true)
    × (has_active_user t row ≡ true)

key_of-found :
    (result : KeyResult) (key : ClientApiKey) → key_of result ≡ some key → result ≡ found key
key_of-found (found item) key h = ground (arith, h)
key_of-found (failed stage) key h = ground (arith, h)
key_of-found no_rows key h = ground (arith, h)

module _ (given : Given) (session : Session) (t : Tables) where
  admits-IsAdmitted :
      (raw_key : Text) (row : KeyRow)
      → find (admits session.now (hash_client_api_key given raw_key)) t.keys ≡ some row
      → has_active_user t row ≡ true
      → IsAdmitted given session t raw_key row
  unfolding admits
  admits-IsAdmitted raw_key row h user =
      let (at, holds) =
        find_lem (admits session.now (hash_client_api_key given raw_key)) t.keys row h in
      (
        at,
        (text_eq_iff row.key_hash (hash_client_api_key given raw_key)).0 (ground (arith, holds)),
        (text_eq_iff row.status (codes "active")).0 (ground (arith, holds)),
        ground (arith, holds),
        user,
      )

  pub authenticate-found :
      (raw_key : Text) (key : ClientApiKey)
      → (authenticate_client_api_key given session t raw_key).1 ≡ found key
      → (row : KeyRow) × IsAdmitted given session t raw_key row
        × (key ≡ scan_client_api_key given session t (used_row session.now row) (pos 0))
  unfolding authenticate_client_api_key
  authenticate-found raw_key key e = elim (Bool-cases (session.runs authenticate)) [
    | inr r ↦ absurd (ground (arith, e, r))
    | inl r ↦
        elim (Option-cases (find (admits session.now (hash_client_api_key given raw_key)) t.keys)) [
          | inl n ↦ absurd (ground (arith, e, r, n))
          | inr (row, at) ↦ elim (Bool-cases (has_active_user t row)) [
            | inr u ↦ absurd (ground (arith, e, r, at, u))
            | inl u ↦ (row, admits-IsAdmitted raw_key row at u, ground (arith, e, r, at, u))
          ]
        ]
  ]

  scan-id :
      (row : KeyRow) (key : ClientApiKey)
      → key ≡ scan_client_api_key given session t (used_row session.now row) (pos 0)
      → key.id ≡ pos row.id
  unfolding scan_client_api_key
  scan-id row key h = ap (λ k. k.id) h

  -- A key that the store lets in has used its budget up exactly when the row it comes from has a
  -- positive daily limit that the amounts billed since the start of the day have reached, or a
  -- positive monthly limit that those since the start of the month have.
  pub authenticate-budget :
      (raw_key : Text) (key : ClientApiKey)
      → (authenticate_client_api_key given session t raw_key).1 ≡ found key
      → (row : KeyRow) × IsAdmitted given session t raw_key row
        × ((is_some (client_key_budget_exceeded key) ≡ true) ↔ (
            IsSpent row.daily_cost_limit (spent_since t row.id session.day_start)
            ⊎ IsSpent row.monthly_cost_limit (spent_since t row.id session.month_start)))
  unfolding scan_client_api_key
  authenticate-budget raw_key key e =
      let (row, admitted, is_key) = authenticate-found raw_key key e in
      let item = item_of given t (used_row session.now row) in
      (
        row,
        admitted,
        budget_exceeded_iff item key (pos 0) (spent_since t row.id session.day_start)
            (spent_since t row.id session.month_start) (ap (λ k. k.cost_usage) is_key),
      )

  -- What the middleware asks of the store.
  abbrev pub authenticates : Text → Option ClientApiKey
  authenticates raw_key = key_of (authenticate_client_api_key given session t raw_key).1

  -- A request goes on with a key in its context only if the key it holds is not blank and its hash
  -- is that of a row that is active, not expired and of no user or an active one, whose id the key
  -- in the context has; and its user, if any, has a positive balance that is not below the minimum.
  pub public_api_auth-IsAdmitted :
      (has_log_writer : Bool) (fields : KeyFields) (key : ClientApiKey)
      → context_key (public_api_auth (some authenticates) has_log_writer fields).0 ≡ some key
      → (is_empty (trim_space (extract_client_api_key fields)) ≡ false)
        × IsPayer key
        × (row : KeyRow) × IsAdmitted given session t (extract_client_api_key fields) row
        × (key.id ≡ pos row.id)
  public_api_auth-IsAdmitted has_log_writer fields key e =
      let (nonblank, known, payer) =
        (public_api_auth-IsPayer authenticates has_log_writer fields key).0 e in
      let (row, admitted, is_key) =
        authenticate-found (extract_client_api_key fields) key (key_of-found _ key known) in
      (nonblank, payer, row, admitted, scan-id row key is_key)
