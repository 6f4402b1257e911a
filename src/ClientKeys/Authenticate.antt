-- ===== src/ClientKeys/Authenticate.antt =====
-- Whose key a request carries (backend/internal/repository/postgres/store.go:
-- `AuthenticateClientAPIKey`).
use wcs_transfer.Base.{
  Bool, true, false, ◌&&◌, Option, none, some, if◌then◌else◌, map, pos, ltb_ℤ, Text, codes, text_eq,
}
use wcs_transfer.Entity.{Time, ClientApiKey}
use wcs_transfer.ClientKeys.{
  KeyRow, Tables, authenticate, Session, KeyResult, found, failed, no_rows, Given,
  hash_client_api_key, find, user_of, or_default, scan_client_api_key,
}
pub mod RoundTrip
pub mod Admits

-- The condition of the `UPDATE`.
unfoldable pub admits : Time → Text → KeyRow → Bool
admits now key_hash row =
    text_eq row.key_hash key_hash
    && text_eq row.status (codes "active")
    && or_default row.expires_at true (λ expires. ltb_ℤ now expires)

abbrev pub used_row : Time → KeyRow → KeyRow
used_row now row = record row { last_used_at = some now }

-- No user, or one that is active.
abbrev pub has_active_user : Tables → KeyRow → Bool
has_active_user t row =
    or_default row.user_id true
      (λ u. or_default (user_of t row.user_id) false (λ user. text_eq user.status (codes "active")))

-- The use is noted even where the user is not active.
unfoldable pub authenticate_client_api_key : Given → Session → Tables → Text → Tables × KeyResult
unfolding admits hash_client_api_key find scan_client_api_key
authenticate_client_api_key given session t raw_key =
    let p = admits session.now (hash_client_api_key given raw_key) in
    let t' = record t {
      keys = map (λ row. if p row then used_row session.now row else row) t.keys;
    } in
    if session.runs authenticate
    then (
      t',
      elim (find p t.keys) [
        | none ↦ no_rows
        | some row ↦
            if has_active_user t row
            then found (scan_client_api_key given session t (used_row session.now row) (pos 0))
            else no_rows
      ],
    )
    else (t, failed authenticate)

-- What the callers of the store are told: the key, or an error.
abbrev pub key_of : KeyResult → Option ClientApiKey
key_of (found item) = some item
key_of (failed stage) = none
key_of no_rows = none
