-- ===== src/Users.antt =====
-- The users (backend/internal/repository/postgres/store.go: `CreateUser`, `UpdateUserStatus`,
-- `ResetUserPassword`, `AuthenticateUser`, `GetUserByID`), their forms in the console
-- (backend/internal/api/admin/handler.go) and their sign-in (backend/internal/api/tenant/handler.go:
-- `Login`, `Me`). The time of the last sign-in is left out, and wallets are those of Wallet. bcrypt is
-- an argument. A number of the sequence is taken by an insertion that fails, too.
use wcs_transfer.Base.{
  ℕ, suc, ◌+◌, Bool, true, false, not, ◌&&◌, Option, none, some, List, [], ◌∷◌, ◌++◌, if◌then◌else◌,
  map, length, leb, ltb, ℤ, pos, ◌⊎◌, inl, inr, eqb_ℤ, Text, codes, text_eq, is_empty, trim_space,
  to_lower,
}
use wcs_transfer.ClientKeys.{find, or_default}
use wcs_transfer.Tokens.{Codec, UserClaims, issue_user_token}
use wcs_transfer.Portal.{status_to_code}
use wcs_transfer.Catalog.Writes.{
  Refusal, Stored, stored, refused, invalid_input, statement_failed, no_such_row, judge, one_of,
  has_other, write,
}
use wcs_transfer.Console.{FormAnswer, default_string, parse_form_id, acted, with_form}
use wcs_transfer.Catalog.Writes.Forms.{submit}
pub mod SignIn
pub mod Admins

pub record AccountRow : Type 0 where
  pub id : ℤ
  pub email : Text
  pub password_hash : Text
  pub full_name : Text
  pub status : Text

pub record Accounts : Type 0 where
  pub rows : List AccountRow
  pub next_id : ℕ

pub data AccountStage : Type 0 where
  insert_user update_status write_password select_by_email select_by_id : AccountStage

-- bcrypt: a hash, or an error, and the comparison.
pub record Passwords : Type 0 where
  pub generate : Text → Option Text
  pub compare : Text → Text → Bool

pub record UserInput : Type 0 where
  pub email : Text
  pub password : Text
  pub full_name : Text
  pub status : Text

unfoldable pub judge_user : Accounts → AccountRow → Option Refusal
unfolding has_other
judge_user db row =
    judge
      (leb (length row.email) 255
        && leb (length row.password_hash) 255
        && leb (length row.full_name) 128
        && leb (length row.status) 16)
      (one_of row.status (codes "active" ∷ codes "disabled" ∷ []))
      (not (has_other (λ r. r.id) row.id (λ r. text_eq r.email row.email) db.rows)) true

-- The row of a new user, with the hash of the password.
abbrev pub new_user : Accounts → UserInput → Text → AccountRow
new_user db input password_hash = record {
  id = pos db.next_id;
  email = to_lower (trim_space input.email);
  password_hash = password_hash;
  full_name = trim_space input.full_name;
  status = default_string input.status (codes "active");
}

-- The bytes of a character in UTF-8.
abbrev pub character_bytes : ℕ → ℕ
character_bytes c =
    if ltb c 0x80 then 1 else if ltb c 0x800 then 2 else if ltb c 0x10000 then 3 else 4

-- `len` of a string, which counts its bytes.
abbrev pub byte_length : Text → ℕ
byte_length [] = 0
byte_length (c ∷ s) = character_bytes c + byte_length s

abbrev pub is_short : Text → Bool
is_short password = ltb (byte_length (trim_space password)) 8

module _ (pw : Passwords) (runs : AccountStage → Bool) (db : Accounts) where
  unfoldable pub create_user : UserInput → Accounts × Stored AccountRow
  unfolding judge_user
  create_user input =
      if is_empty (trim_space input.email)
      then (db, invalid_input (codes "email is required"))
      else (if is_empty (trim_space input.full_name)
          then (db, invalid_input (codes "full name is required"))
          else (if is_short input.password
              then (db, invalid_input (codes "password must be at least 8 characters"))
              else (elim (pw.generate input.password) [
                | none ↦ (db, invalid_input (codes "hash user password"))
                | some password_hash ↦
                    let row = new_user db input password_hash in
                    let taken = record db { next_id = suc db.next_id } in
                    write (runs insert_user) (judge_user db row) taken
                      (record taken { rows = db.rows ++ row ∷ [] }) (stored row)
              ])))

  abbrev pub with_row : ℤ → AccountRow → Accounts
  with_row id row = record db { rows = map (λ r. if eqb_ℤ r.id id then row else r) db.rows }

  unfoldable pub update_user_status : ℤ → Text → Accounts × Stored AccountRow
  unfolding judge_user find
  update_user_status id status = elim (find (λ r. eqb_ℤ r.id id) db.rows) [
    | none ↦ write (runs update_status) none db db no_such_row
    | some old ↦
        let row = record old { status = trim_space status } in
        write (runs update_status) (judge_user db row) db (with_row id row) (stored row)
  ]

  unfoldable pub reset_user_password : ℤ → Text → Accounts × Stored AccountRow
  unfolding judge_user find
  reset_user_password id password =
      if is_short password
      then (db, invalid_input (codes "password must be at least 8 characters"))
      else (elim (pw.generate password) [
        | none ↦ (db, invalid_input (codes "hash user password"))
        | some password_hash ↦ elim (find (λ r. eqb_ℤ r.id id) db.rows) [
          | none ↦ write (runs write_password) none db db no_such_row
          | some old ↦
              let row = record old { password_hash = password_hash } in
              write (runs write_password) (judge_user db row) db (with_row id row) (stored row)
        ]
      ])

  -- No row is one without the email, that is not active, or whose password is another.
  unfoldable pub authenticate_user : Text → Text → Stored AccountRow
  unfolding find
  authenticate_user email password =
      if runs select_by_email
      then elim (find
          (λ r. text_eq r.email (to_lower (trim_space email)) && text_eq r.status (codes "active"))
          db.rows) [
            | none ↦ no_such_row
            | some row ↦ if pw.compare row.password_hash password then stored row else no_such_row
          ]
      else statement_failed

  unfoldable pub get_user_by_id : ℤ → Stored AccountRow
  unfolding find
  get_user_by_id id =
      if runs select_by_id
      then or_default (find (λ r. eqb_ℤ r.id id && text_eq r.status (codes "active")) db.rows)
          no_such_row (λ row. stored row)
      else statement_failed

  -- The console: the handlers, with the store.
  unfoldable pub create_user_form : Bool → Option UserInput → Accounts × FormAnswer AccountRow
  unfolding create_user
  create_user_form has_store body = with_form has_store db (some (pos 0)) body (λ id form.
      submit db false (λ r. acted (codes "user.create") r.id r.email)
        (create_user (record form {
          email = trim_space form.email;
          full_name = trim_space form.full_name;
          status = default_string (trim_space form.status) (codes "active");
        })))

  unfoldable pub update_user_status_form :
      Bool → Text → Option Text → Accounts × FormAnswer AccountRow
  unfolding update_user_status parse_form_id
  update_user_status_form has_store param body =
      with_form has_store db (parse_form_id param) body (λ id status.
        submit db false (λ r. acted (codes "user.update_status") r.id r.email)
          (update_user_status id (trim_space status)))

  unfoldable pub reset_user_password_form :
      Bool → Text → Option Text → Accounts × FormAnswer AccountRow
  unfolding reset_user_password parse_form_id
  reset_user_password_form has_store param body =
      with_form has_store db (parse_form_id param) body (λ id password.
        submit db false (λ r. acted (codes "user.reset_password") id [])
          (reset_user_password id password))

-- The answers of the sign-in: an error with its code, or the user with a token.
pub data LoginAnswer : Type 0 where
  login_error : ℕ → LoginAnswer
  logged_in : AccountRow → Text → LoginAnswer

abbrev pub week : ℤ
week = pos 604800

module _ (pw : Passwords) (codec : Codec UserClaims) (secret : Text) (runs : AccountStage → Bool)
    (db : Accounts) where
  abbrev pub issue_for : ℤ → AccountRow → LoginAnswer
  issue_for now row =
      or_default (issue_user_token codec secret row.id row.email row.full_name now week)
        (login_error (status_to_code 500)) (logged_in row)

  abbrev pub sign_in : ℤ → Stored AccountRow → LoginAnswer
  sign_in now (stored row) = issue_for now row
  sign_in now no_such_row = login_error (status_to_code 401)
  sign_in now (refused refusal) = login_error (status_to_code 400)
  sign_in now (invalid_input message) = login_error (status_to_code 400)
  sign_in now statement_failed = login_error (status_to_code 400)

  -- The body is an email and a password; `configured` says that there are a store and tokens.
  unfoldable pub login : Bool → ℤ → Option (Text × Text) → LoginAnswer
  unfolding authenticate_user issue_user_token status_to_code
  login configured now body =
      if configured
      then or_default body (login_error (status_to_code 400))
          (λ request. sign_in now (authenticate_user pw runs db request.0 request.1))
      else login_error (status_to_code 503)

-- `Me`; `none` is a context without claims.
abbrev pub shown : Stored AccountRow → AccountRow ⊎ ℕ
shown (stored row) = inl row
shown (refused refusal) = inr (status_to_code 401)
shown (invalid_input message) = inr (status_to_code 401)
shown statement_failed = inr (status_to_code 401)
shown no_such_row = inr (status_to_code 401)

unfoldable pub me :
    Passwords → (AccountStage → Bool) → Accounts → Bool → Option UserClaims → AccountRow ⊎ ℕ
unfolding get_user_by_id status_to_code
me pw runs db configured claims =
    if configured
    then or_default claims (inr (status_to_code 401)) (λ c. shown (get_user_by_id pw runs db c.sub))
    else inr (status_to_code 503)
