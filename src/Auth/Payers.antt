-- ===== src/Auth/Payers.antt =====
-- Whom `PublicAPIAuth` lets through, and what it logs
-- (backend/internal/middleware/public_api_auth.go).
use wcs_transfer.Base.{
  ℕ, ◌≡◌, ◌↔◌, ◌⊎◌, inl, inr, Bool, true, false, Option, none, some, List, [], ◌∷◌, arith, pos,
  ◌≤ℤ◌, ◌<ℤ◌, Option-cases, Text, is_empty, trim_space,
}
use wcs_transfer.Entity.{ClientApiKey}
use wcs_transfer.Auth.{
  KeyFields, AuthRejection, AuthOutcome, next, abort, extract_client_api_key,
  write_auth_rejection_log, check_wallet, public_api_auth,
}

-- A key without a user, or whose user has a positive balance that is not below their minimum.
abbrev pub IsPayer : ClientApiKey → Type 0
IsPayer key =
    (key.user_id ≤ℤ pos 0)
    ⊎ ((pos 0 <ℤ key.user_wallet_balance) × (key.user_min_avail_balance ≤ℤ key.user_wallet_balance))

abbrev pub context_key : AuthOutcome → Option ClientApiKey
context_key (next key) = key
context_key (abort status error_type) = none

abbrev pub status_of : AuthOutcome → ℕ
status_of (next key) = 0
status_of (abort status error_type) = status

check_wallet-context_key :
    (has_log_writer : Bool) (key k : ClientApiKey)
    → (context_key (check_wallet has_log_writer key).0 ≡ some k) ↔ ((key ≡ k) × IsPayer key)
unfolding check_wallet
check_wallet-context_key has_log_writer key k = ground arith

abbrev pub is_logged : List AuthRejection → Bool
is_logged [] = false
is_logged (row ∷ rows) = true

check_wallet-logged :
    (has_log_writer : Bool) (key : ClientApiKey)
    → (is_logged (check_wallet has_log_writer key).1 ≡ true)
      ↔ ((has_log_writer ≡ true) × (status_of (check_wallet has_log_writer key).0 ≡ 402))
unfolding check_wallet write_auth_rejection_log
check_wallet-logged has_log_writer key = ground arith

module _ (authenticate : Text → Option ClientApiKey) (has_log_writer : Bool)
    (fields : KeyFields) where
  -- With a store, a request goes on with a key in its context exactly when the key it holds is not
  -- blank, the store knows it, and it has no user or its user's balance is positive and at least
  -- their minimum.
  pub public_api_auth-IsPayer :
      (k : ClientApiKey)
      → (context_key (public_api_auth (some authenticate) has_log_writer fields).0 ≡ some k) ↔ (
          (is_empty (trim_space (extract_client_api_key fields)) ≡ false)
          × (authenticate (extract_client_api_key fields) ≡ some k)
          × IsPayer k)
  unfolding public_api_auth
  public_api_auth-IsPayer k = elim (Option-cases (authenticate (extract_client_api_key fields))) [
    | inl e ↦ ground (arith, e)
    | inr (key, e) ↦ ground (arith, e, check_wallet-context_key has_log_writer key k)
  ]

  -- With a store, a rejection is logged exactly when there is a log writer and the answer is 402.
  pub public_api_auth-logged :
      (is_logged (public_api_auth (some authenticate) has_log_writer fields).1 ≡ true) ↔ (
        (has_log_writer ≡ true)
        × (status_of (public_api_auth (some authenticate) has_log_writer fields).0 ≡ 402))
  unfolding public_api_auth
  public_api_auth-logged = elim (Option-cases (authenticate (extract_client_api_key fields))) [
    | inl e ↦ ground (arith, e)
    | inr (key, e) ↦ ground (arith, e, check_wallet-logged has_log_writer key)
  ]
