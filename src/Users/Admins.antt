-- ===== src/Users/Admins.antt =====
-- Administrators (backend/internal/middleware/admin_auth.go: `AdminAuth`;
-- backend/internal/api/adminauth/handler.go: `Login`, `Me`;
-- backend/internal/repository/postgres/store.go: `AuthenticateAdminUser`, `GetAdminUserByID`). The
-- time of the last sign-in is left out, but not that its statement may fail.
use wcs_transfer.Base.{
  ℕ, inl, inr, ◌≡◌, refl, Bool, Bool-cases, false, ◌&&◌, Option, none, some, List, arith,
  if◌then◌else◌, ℤ, pos, eqb_ℤ, Text, codes, text_eq, is_empty, trim_space,
}
use wcs_transfer.ClientKeys.{find, or_default}
use wcs_transfer.Tokens.{
  Codec, AdminClaims, admin_kind, issue_admin_token, Parsed, accepted, secret_empty, invalid_format,
  invalid_signature, invalid_payload, invalid_claims, invalid_subject, token_expired, parse_token,
}
use wcs_transfer.Tokens.RoundTrip.{IsSigned, parse_token-IsSigned}
use wcs_transfer.Portal.{trim_prefix}
use wcs_transfer.Portal.Debug.{
  code_unauthorized, code_invalid_body, code_internal_error, code_service_error,
}
use wcs_transfer.Catalog.Writes.{
  Stored, stored, refused, invalid_input, statement_failed, no_such_row,
}
use wcs_transfer.Users.{Passwords}

-- A request that goes on, with the claims of a session if there are any, or is aborted.
pub data AdminAccess : Type 0 where
  goes_on : Option AdminClaims → AdminAccess
  aborted : ℕ → AdminAccess

abbrev pub session_or_abort : Parsed AdminClaims → AdminAccess
session_or_abort (accepted claims) = goes_on (some claims)
session_or_abort _ = aborted code_unauthorized

abbrev pub bearer_token : Text → Text
bearer_token authorization = trim_space (trim_prefix (codes "Bearer ") authorization)

-- The service is its codec and its secret; one of `none` is nil, and one without a secret is not
-- configured.
unfoldable pub admin_auth : Option (Codec AdminClaims × Text) → ℤ → Text → AdminAccess
admin_auth none now authorization = goes_on none
admin_auth (some (codec, secret)) now authorization =
    if is_empty secret
    then goes_on none
    else (if is_empty (bearer_token authorization)
        then aborted code_unauthorized
        else session_or_abort
            (parse_token codec admin_kind secret now (bearer_token authorization)))

pub record AdminRow : Type 0 where
  pub id : ℤ
  pub username : Text
  pub display_name : Text
  pub password_hash : Text
  pub status : Text

pub data AdminStage : Type 0 where
  select_admin update_admin_login select_admin_by_id : AdminStage

pub data AdminAnswer : Type 0 where
  admin_error : ℕ → AdminAnswer
  admin_logged_in : AdminRow → Text → AdminAnswer
  shows : AdminRow → AdminAnswer

abbrev pub half_day : ℤ
half_day = pos 43200

module _ (pw : Passwords) (runs : AdminStage → Bool) (admins : List AdminRow) where
  unfoldable pub authenticate_admin_user : Text → Text → Stored AdminRow
  unfolding find
  authenticate_admin_user username password =
      if runs select_admin
      then elim (find
          (λ a. text_eq a.username (trim_space username) && text_eq a.status (codes "active"))
          admins) [
            | none ↦ no_such_row
            | some row ↦ if pw.compare row.password_hash password then stored row else no_such_row
          ]
      else statement_failed

  unfoldable pub get_admin_user_by_id : ℤ → Stored AdminRow
  unfolding find
  get_admin_user_by_id id =
      if runs select_admin_by_id
      then or_default (find (λ a. eqb_ℤ a.id id && text_eq a.status (codes "active")) admins)
          no_such_row (λ row. stored row)
      else statement_failed

  abbrev pub admin_sign_in : Codec AdminClaims → Text → ℤ → Stored AdminRow → AdminAnswer
  admin_sign_in codec secret now (stored row) =
      if runs update_admin_login
      then or_default
          (issue_admin_token codec secret row.id row.username row.display_name now half_day)
          (admin_error code_internal_error) (admin_logged_in row)
      else admin_error code_internal_error
  admin_sign_in codec secret now no_such_row = admin_error code_unauthorized
  admin_sign_in codec secret now (refused refusal) = admin_error code_internal_error
  admin_sign_in codec secret now (invalid_input message) = admin_error code_internal_error
  admin_sign_in codec secret now statement_failed = admin_error code_internal_error

  -- The body is a user name and a password.
  unfoldable pub admin_login :
      Bool → Codec AdminClaims → Text → ℤ → Option (Text × Text) → AdminAnswer
  unfolding authenticate_admin_user issue_admin_token
  admin_login configured codec secret now body =
      if configured
      then or_default body (admin_error code_invalid_body)
          (λ request. admin_sign_in codec secret now (authenticate_admin_user request.0 request.1))
      else admin_error code_service_error

  abbrev pub shown_admin : Stored AdminRow → AdminAnswer
  shown_admin (stored row) = shows row
  shown_admin (refused refusal) = admin_error code_internal_error
  shown_admin (invalid_input message) = admin_error code_internal_error
  shown_admin statement_failed = admin_error code_internal_error
  shown_admin no_such_row = admin_error code_internal_error

  unfoldable pub admin_me : Bool → Option AdminClaims → AdminAnswer
  unfolding get_admin_user_by_id
  admin_me configured claims =
      if configured
      then or_default claims (admin_error code_unauthorized)
          (λ c. shown_admin (get_admin_user_by_id c.sub))
      else admin_error code_service_error

session-accepted :
    (parsed : Parsed AdminClaims) (session : Option AdminClaims)
    → session_or_abort parsed ≡ goes_on session
    → (claims : AdminClaims) × (session ≡ some claims) × (parsed ≡ accepted claims)
session-accepted (accepted claims) session e = (claims, ground (arith, e), refl)
session-accepted secret_empty session e = absurd (ground (arith, e))
session-accepted invalid_format session e = absurd (ground (arith, e))
session-accepted invalid_signature session e = absurd (ground (arith, e))
session-accepted invalid_payload session e = absurd (ground (arith, e))
session-accepted invalid_claims session e = absurd (ground (arith, e))
session-accepted invalid_subject session e = absurd (ground (arith, e))
session-accepted token_expired session e = absurd (ground (arith, e))

-- Where a secret is configured, a request to the console goes on only with a session, whose token is
-- a payload with its signature under that secret, with a valid subject and not expired.
pub admin_auth-IsSigned :
    (codec : Codec AdminClaims) (secret : Text) (now : ℤ) (authorization : Text)
    (session : Option AdminClaims)
    → is_empty secret ≡ false
    → admin_auth (some (codec, secret)) now authorization ≡ goes_on session
    → (claims : AdminClaims) × (session ≡ some claims)
      × IsSigned codec admin_kind secret now (bearer_token authorization) claims
unfolding admin_auth
admin_auth-IsSigned codec secret now authorization session configured e =
    elim (Bool-cases (is_empty (bearer_token authorization))) [
      | inl b ↦ absurd (ground (arith, configured, e, b))
      | inr b ↦
          let token = bearer_token authorization in
          let (claims, is_session, parsed) =
            session-accepted (parse_token codec admin_kind secret now token) session
              (ground (arith, configured, e, b)) in
          (claims, is_session, parse_token-IsSigned codec admin_kind secret now token claims parsed)
    ]
