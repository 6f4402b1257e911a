-- ===== src/Console/Keys/Disabled.antt =====
-- A client key that an administrator disables (backend/internal/api/admin/handler.go:
-- `UpdateClientAPIKey`; backend/internal/repository/postgres/store.go: `UpdateClientAPIKey`,
-- `AuthenticateClientAPIKey`; backend/internal/middleware/public_api_auth.go).
use wcs_transfer.Base.{
  ◌≡◌, refl, ap, ℕ, Bool, Bool-cases, true, false, Option, some, Option-cases, List, inl, inr,
  arith, All, ℤ, Text, codes, is_empty, trim_space, text_eq,
}
use wcs_transfer.Entity.{Time, ClientApiKey}
use wcs_transfer.Auth.{KeyFields, extract_client_api_key, public_api_auth}
use wcs_transfer.Auth.Payers.{status_of}
use wcs_transfer.ClientKeys.{
  Tables, Session, KeyResult, found, failed, no_rows, Given, find, has_id, hash_client_api_key,
}
use wcs_transfer.ClientKeys.Writes.{
  KeyInput, updated_row, checks_row, has_hash, change_rows, finish_write, update_client_api_key,
}
use wcs_transfer.ClientKeys.Writes.Laws.{finish_write-found}
use wcs_transfer.ClientKeys.Authenticate.Admits.{authenticates}
use wcs_transfer.Portal.{parse_expires_at, Visit, after_visits}
use wcs_transfer.Portal.Shut.{IsShut, change_rows-IsShut, shut-refused}
use wcs_transfer.Console.{AdminAction, saved, parse_form_id}
use wcs_transfer.Console.Keys.{UpdateKeyForm, update_input, key_answer, update_client_api_key_form}

module _ (given : Given) (session : Session) (t : Tables) where
  update-keys :
      (id : ℤ) (input : KeyInput) (item : ClientApiKey)
      → (update_client_api_key given session t id input).1 ≡ found item
      → (update_client_api_key given session t id input).0.keys
        ≡ change_rows (has_id id) (updated_row input) t.keys
  unfolding update_client_api_key
  update-keys id input item e = elim (Option-cases (find (has_id id) t.keys)) [
    | inl n ↦ ground (arith, e, n)
    | inr (row, at) ↦ elim (Bool-cases (checks_row (updated_row input row))) [
      | inr c ↦ ground (arith, e, at, c)
      | inl c ↦
          let changed = record t { keys = change_rows (has_id id) (updated_row input) t.keys } in
          let written = finish_write given session t changed row.id input.allowed_model_ids in
          let is_found : written.1 ≡ found item = ground (arith, e, at, c) in
          let (same, read) =
            finish_write-found given session t changed written.0 row.id input.allowed_model_ids item
              (ap (λ r. (written.0, r)) is_found) in
          ground (arith, e, at, c, ap (λ (u : Tables). u.keys) same)
    ]
  ]

  module _ (code_of : KeyResult → ℕ) (parse_time : Text → Option Time) where
    key_answer-saved :
        (answer : Tables × KeyResult) (item : ClientApiKey) (action : AdminAction)
        → (key_answer code_of parse_time true given session t answer).1 ≡ saved item action
        → answer.1 ≡ found item
    unfolding key_answer
    key_answer-saved (t', found i) item action e = ground (arith, e)
    key_answer-saved (t', failed stage) item action e = ground (arith, e)
    key_answer-saved (t', no_rows) item action e = ground (arith, e)

    -- A form that is saved is stored by an update with what it says.
    form-updates :
        (param : Text) (id : ℤ) (form : UpdateKeyForm) (item : ClientApiKey) (action : AdminAction)
        → parse_form_id param ≡ some id
        → (update_client_api_key_form code_of parse_time true given session t param (some form)).1
          ≡ saved item action
        → (expires_at : Option Time) × ((update_client_api_key given session t id
              (update_input form expires_at)).1
            ≡ found item)
          × ((update_client_api_key_form code_of parse_time true given session t param
                (some form)).0
              ≡ (update_client_api_key given session t id (update_input form expires_at)).0)
    unfolding update_client_api_key_form
    form-updates param id form item action is_id e =
        elim (Option-cases (parse_expires_at parse_time form.expires_at)) [
          | inl x ↦ absurd (ground (arith, e, is_id, x))
          | inr (expires_at, x) ↦ elim (Bool-cases (is_empty (trim_space form.name))) [
            | inl blank ↦ absurd (ground (arith, e, is_id, x, blank))
            | inr named ↦
                let stored =
                  update_client_api_key given session t id (update_input form expires_at) in
                (
                  expires_at,
                  key_answer-saved stored item action (ground (arith, e, is_id, x, named)),
                  ground (arith, is_id, x, named),
                )
          ]
        ]

    -- After the console has saved a form that disables the key of a secret, and after whatever
    -- requests about client keys users then make in the portal, with any failures of the database, a
    -- request that holds the secret is answered with 401. The key of the secret is the one row with
    -- its hash.
    pub console_disabled-refused :
        (param : Text) (id : ℤ) (form : UpdateKeyForm) (item : ClientApiKey) (action : AdminAction)
        (fields : KeyFields) (visits : List Visit) (session' : Session) (has_log_writer : Bool)
        → parse_form_id param ≡ some id
        → trim_space form.status ≡ codes "disabled"
        → has_hash (hash_client_api_key given (extract_client_api_key fields)) t.keys ≡ true
        → All
            (λ row.
              (text_eq row.key_hash (hash_client_api_key given (extract_client_api_key fields))
                ≡ true)
              → (has_id id row ≡ true))
            t.keys
        → (update_client_api_key_form code_of parse_time true given session t param (some form)).1
          ≡ saved item action
        → status_of
            (public_api_auth
              (some (
                authenticates given session' (
                  after_visits given
                    (update_client_api_key_form code_of parse_time true given session t param
                      (some form)).0
                    visits)))
              has_log_writer
              fields).0
          ≡ 401
    console_disabled-refused param id form item action fields visits session' has_log_writer is_id
          disables known only e =
        let h = hash_client_api_key given (extract_client_api_key fields) in
        let t1 =
          (update_client_api_key_form code_of parse_time true given session t param
            (some form)).0 in
        let (expires_at, is_found, same) = form-updates param id form item action is_id e in
        let input = update_input form expires_at in
        let shuts : text_eq input.status (codes "active") ≡ false = rw disables refl in
        let shut : IsShut h t1.keys =
          rw (ap (λ (u : Tables). u.keys) same, update-keys id input item is_found)
            (change_rows-IsShut h (has_id id) (updated_row input) (λ row. refl) (λ row. shuts)
              t.keys known only) in
        shut-refused given t1 fields visits session' has_log_writer shut
