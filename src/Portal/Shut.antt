-- ===== src/Portal/Shut.antt =====
-- A key that its user has disabled (backend/internal/api/tenant/handler.go: `DisableClientKey`;
-- backend/internal/repository/postgres/store.go: `DisableUserClientAPIKey`,
-- `AuthenticateClientAPIKey`; backend/internal/middleware/public_api_auth.go).
use wcs_transfer.Base.{
  ◌≡◌, refl, ap, ◌∙◌, Bool, Bool-cases, true, false, ◌&&◌, none, some, List, [], ◌∷◌, ◌++◌, arith,
  All, All-append, sym, ℤ, inl, inr, Text, codes, text_eq, text_eq_iff, Option-cases,
}
use wcs_transfer.Entity.{Time, ClientApiKey}
use wcs_transfer.Auth.{KeyFields, extract_client_api_key, public_api_auth}
use wcs_transfer.Auth.Payers.{status_of}
use wcs_transfer.ClientKeys.{KeyRow, Tables, Session, found, Given, find, hash_client_api_key}
use wcs_transfer.ClientKeys.Writes.{
  change_rows, is_users, disabled_row, has_hash, change_user_key, disable_user_client_api_key,
}
use wcs_transfer.ClientKeys.Authenticate.{admits, authenticate_client_api_key}
use wcs_transfer.ClientKeys.Authenticate.Admits.{authenticates}
use wcs_transfer.Portal.{Visit, after_visits, handle}
use wcs_transfer.Portal.Changes.{Changed, same, added, disabled, renamed, named_row, handle-Changed}

-- The rows with the hash are not active.
abbrev pub Inactive : Text → List KeyRow → Type 0
Inactive key_hash rows =
    All (λ row. text_eq row.key_hash key_hash && text_eq row.status (codes "active") ≡ false) rows

-- There is such a row, and none is active.
abbrev pub IsShut : Text → List KeyRow → Type 0
IsShut key_hash rows = (has_hash key_hash rows ≡ true) × Inactive key_hash rows

module _ (key_hash : Text) where
  module _ (p : KeyRow → Bool) (f : KeyRow → KeyRow)
      (keeps : (row : KeyRow) → (f row).key_hash ≡ row.key_hash) where
    has_hash-change_rows :
        (rows : List KeyRow) → has_hash key_hash (change_rows p f rows) ≡ has_hash key_hash rows
    has_hash-change_rows [] = refl
    has_hash-change_rows (row ∷ rows) = ground (arith, keeps row, has_hash-change_rows rows)

    -- Of a change that activates nothing.
    Inactive-change_rows :
        ((row : KeyRow)
          → text_eq row.status (codes "active") ≡ false
          → text_eq (f row).status (codes "active") ≡ false)
        → (rows : List KeyRow) → Inactive key_hash rows
        → Inactive key_hash (change_rows p f rows)
    Inactive-change_rows shuts [] h = tt
    Inactive-change_rows shuts (row ∷ rows) (x, h) =
        (ground (arith, x, keeps row, shuts row), Inactive-change_rows shuts rows h)

  has_hash-append :
      (rows others : List KeyRow)
      → has_hash key_hash rows ≡ true
      → has_hash key_hash (rows ++ others) ≡ true
  has_hash-append [] others h = ground (arith, h)
  has_hash-append (row ∷ rows) others h = ground (arith, h, has_hash-append rows others)

  -- A new row has another hash.
  append-IsShut :
      (rows : List KeyRow) (row : KeyRow)
      → has_hash row.key_hash rows ≡ false
      → IsShut key_hash rows
      → IsShut key_hash (rows ++ row ∷ [])
  append-IsShut rows row new (known, inactive) = (
    has_hash-append rows (row ∷ []) known,
    All-append (λ r. text_eq r.key_hash key_hash && text_eq r.status (codes "active") ≡ false) rows
        (row ∷ []) inactive
        (elim (Bool-cases (text_eq row.key_hash key_hash)) [
          | inr e ↦ (ground (arith, e), tt)
          | inl e ↦
              let same_hash = (text_eq_iff row.key_hash key_hash).0 e in
              absurd (ground (arith, known, sym (ap (λ h. has_hash h rows) same_hash) ∙ new))
        ]),
  )

  Changed-IsShut :
      (user_id : ℤ) (rows rows' : List KeyRow)
      → Changed user_id rows rows'
      → IsShut key_hash rows
      → IsShut key_hash rows'
  Changed-IsShut user_id rows rows' (same e) shut = rw e shut
  Changed-IsShut user_id rows rows' (added row owner new e) shut =
      rw e (append-IsShut rows row new shut)
  Changed-IsShut user_id rows rows' (disabled id e) (known, inactive) = rw e (
    has_hash-change_rows (is_users user_id id) disabled_row (λ row. refl) rows ∙ known,
    Inactive-change_rows (is_users user_id id) disabled_row (λ row. refl) (λ row h. refl) rows
        inactive,
  )
  Changed-IsShut user_id rows rows' (renamed id name e) (known, inactive) = rw e (
    has_hash-change_rows (is_users user_id id) (named_row name) (λ row. refl) rows ∙ known,
    Inactive-change_rows (is_users user_id id) (named_row name) (λ row. refl) (λ row h. h) rows
        inactive,
  )

  after_visits-IsShut :
      (given : Given) (t : Tables) (visits : List Visit)
      → IsShut key_hash t.keys
      → IsShut key_hash (after_visits given t visits).keys
  after_visits-IsShut given t [] h = h
  after_visits-IsShut given t (v ∷ visits) h =
      let t' = (handle given v.portal t (some v.user_id) v.request).0 in
      after_visits-IsShut given t' visits (
        Changed-IsShut v.user_id t.keys t'.keys
          (handle-Changed given v.portal t v.user_id v.request) h)

  find-Inactive :
      (now : Time) (rows : List KeyRow)
      → Inactive key_hash rows
      → find (admits now key_hash) rows ≡ none
  unfolding find admits
  find-Inactive now [] h = refl
  find-Inactive now (row ∷ rows) (p, h) = ground (arith, p, find-Inactive now rows h)

  -- A change that shuts every row with the hash, of which there is one.
  pub change_rows-IsShut :
      (p : KeyRow → Bool) (f : KeyRow → KeyRow)
      → ((row : KeyRow) → (f row).key_hash ≡ row.key_hash)
      → ((row : KeyRow) → text_eq (f row).status (codes "active") ≡ false)
      → (rows : List KeyRow) → has_hash key_hash rows ≡ true
      → All (λ row. (text_eq row.key_hash key_hash ≡ true) → (p row ≡ true)) rows
      → IsShut key_hash (change_rows p f rows)
  change_rows-IsShut p f keeps shuts rows known only =
      (has_hash-change_rows p f keeps rows ∙ known, all_shut rows only)
    where
      all_shut :
          (rows : List KeyRow)
          → All (λ row. (text_eq row.key_hash key_hash ≡ true) → (p row ≡ true)) rows
          → Inactive key_hash (change_rows p f rows)
      all_shut [] h = tt
      all_shut (row ∷ rows) (x, h) = (
        elim (Bool-cases (text_eq row.key_hash key_hash)) [
          | inl e ↦ rw (x e) (ground (arith, shuts row))
          | inr e ↦ ground (arith, e, keeps row)
        ],
        all_shut rows h,
      )

-- A request that holds a secret whose rows are shut is answered with 401, after whatever requests
-- about client keys are made in the portal.
pub shut-refused :
    (given : Given) (t : Tables) (fields : KeyFields) (visits : List Visit) (session : Session)
    (has_log_writer : Bool)
    → IsShut (hash_client_api_key given (extract_client_api_key fields)) t.keys
    → status_of
        (public_api_auth
          (some (authenticates given session (after_visits given t visits)))
          has_log_writer
          fields).0
      ≡ 401
unfolding public_api_auth authenticate_client_api_key
shut-refused given t fields visits session has_log_writer shut =
    let h = hash_client_api_key given (extract_client_api_key fields) in
    let inactive = (after_visits-IsShut h given t visits shut).1 in
    let none_found = find-Inactive h session.now (after_visits given t visits).keys inactive in
    ground (arith, none_found)

module _ (given : Given) (session : Session) (t : Tables) (user_id id : ℤ) where
  disable-keys :
      (item : ClientApiKey)
      → (disable_user_client_api_key given session t user_id id).1 ≡ found item
      → (disable_user_client_api_key given session t user_id id).0.keys
        ≡ change_rows (is_users user_id id) disabled_row t.keys
  unfolding disable_user_client_api_key change_user_key
  disable-keys item e = elim (Option-cases (find (is_users user_id id) t.keys)) [
    | inl n ↦ ground (arith, e, n)
    | inr (row, at) ↦ ground (arith, e, at)
  ]

  -- After a user has disabled the key of a secret, and after whatever requests about client keys are
  -- then made in the portal, by anyone and with any failures of the database, a request that holds
  -- the secret is answered with 401. The key of the secret is the one row with its hash.
  pub disabled-refused :
      (fields : KeyFields) (item : ClientApiKey) (visits : List Visit) (session' : Session)
      (has_log_writer : Bool)
      → has_hash (hash_client_api_key given (extract_client_api_key fields)) t.keys ≡ true
      → All
          (λ row.
            (text_eq row.key_hash (hash_client_api_key given (extract_client_api_key fields))
              ≡ true)
            → (is_users user_id id row ≡ true))
          t.keys
      → (disable_user_client_api_key given session t user_id id).1 ≡ found item
      → status_of
          (public_api_auth
            (some (
              authenticates given session' (
                after_visits given
                  (disable_user_client_api_key given session t user_id id).0
                  visits)))
            has_log_writer
            fields).0
        ≡ 401
  disabled-refused fields item visits session' has_log_writer known only e =
      let h = hash_client_api_key given (extract_client_api_key fields) in
      let t1 = (disable_user_client_api_key given session t user_id id).0 in
      let shut : IsShut h t1.keys = rw (disable-keys item e) (
        change_rows-IsShut h (is_users user_id id) disabled_row (λ row. refl) (λ row. refl) t.keys
          known only) in
      shut-refused given t1 fields visits session' has_log_writer shut
