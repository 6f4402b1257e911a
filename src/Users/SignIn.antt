-- ===== src/Users/SignIn.antt =====
-- The sign-in of a user that the console has created (backend/internal/api/tenant/handler.go:
-- `Login`; backend/internal/middleware/tenant_user_auth.go).
use wcs_transfer.Base.{
  ◌≡◌, refl, ap, sym, ◌∙◌, Bool, Bool-cases, true, false, ◌&&◌, ◌||◌, none, some, Option-cases,
  List, [], ◌∷◌, ◌++◌, arith, All, inl, inr, ℤ, pos, ◌+ℤ◌, ◌<ℤ◌, eqb_ℤ, is_positive, Text, codes,
  text_eq, text_eq_iff, is_empty, trim_space, to_lower, cut_prefix,
}
use wcs_transfer.ClientKeys.{find}
use wcs_transfer.ClientKeys.Writes.Laws.{find-append}
use wcs_transfer.Tokens.{Codec, CodecLaws, UserClaims, user_kind, issue_user_token}
use wcs_transfer.Tokens.RoundTrip.{parse_token-issue_token, issue_token_solid}
use wcs_transfer.Portal.{tenant_user_auth, authenticated}
use wcs_transfer.Catalog.Writes.{stored, has_other}
use wcs_transfer.Users.{
  AccountRow, Accounts, AccountStage, insert_user, select_by_email, Passwords, UserInput,
  judge_user, new_user, is_short, create_user, authenticate_user, logged_in, week, login,
}

find-email :
    (email : Text) (id : ℤ) (rows : List AccountRow)
    → has_other (λ r. r.id) id (λ r. text_eq r.email email) rows ≡ false
    → All (λ r. eqb_ℤ r.id id ≡ false) rows
    → find (λ r. text_eq r.email email && text_eq r.status (codes "active")) rows ≡ none
unfolding find has_other
find-email email id [] h fresh = refl
find-email email id (row ∷ rows) h (other, fresh) =
    ground (arith, h, other, find-email email id rows (ground (arith, h)) fresh)

module _ (pw : Passwords) (runs : AccountStage → Bool) (db : Accounts) where
  -- What a creation has stored.
  create_user-stored :
      (input : UserInput) (row : AccountRow)
      → (create_user pw runs db input).1 ≡ stored row
      → (password_hash : Text) × (pw.generate input.password ≡ some password_hash)
        × (row ≡ new_user db input password_hash)
        × (judge_user db (new_user db input password_hash) ≡ none)
        × ((create_user pw runs db input).0.rows ≡ db.rows ++ row ∷ [])
  unfolding create_user
  create_user-stored input row e =
      elim (Bool-cases (
        is_empty (trim_space input.email)
        || is_empty (trim_space input.full_name)
        || is_short input.password)) [
          | inl x ↦ absurd (ground (arith, e, x))
          | inr x ↦ elim (Option-cases (pw.generate input.password)) [
            | inl g ↦ absurd (ground (arith, e, x, g))
            | inr (h, g) ↦ elim (Option-cases (judge_user db (new_user db input h))) [
              | inr (refusal, j) ↦ absurd (ground (arith, e, x, g, j))
              | inl j ↦ elim (Bool-cases (runs insert_user)) [
                | inr r ↦ absurd (ground (arith, e, x, g, j, r))
                | inl r ↦
                    let is_row : new_user db input h ≡ row = ground (arith, e, x, g, j, r) in
                    let rows : (create_user pw runs db input).0.rows
                        ≡ db.rows ++ new_user db input h ∷ [] =
                      ground (arith, x, g, j, r) in
                    (h, g, sym is_row, j, rows ∙ ap (λ u. db.rows ++ u ∷ []) is_row)
              ]
            ]
          ]
        ]

  judged_unique :
      (row : AccountRow)
      → judge_user db row ≡ none
      → has_other (λ r. r.id) row.id (λ r. text_eq r.email row.email) db.rows ≡ false
  unfolding judge_user
  judged_unique row h = ground (arith, h)

  authenticates_created :
      (input : UserInput) (row : AccountRow) (runs' : AccountStage → Bool)
      → ((password hash : Text)
          → pw.generate password ≡ some hash
          → pw.compare hash password ≡ true)
      → (create_user pw runs db input).1 ≡ stored row
      → row.status ≡ codes "active"
      → All (λ r. eqb_ℤ r.id (pos db.next_id) ≡ false) db.rows
      → runs' select_by_email ≡ true
      → authenticate_user pw runs' (create_user pw runs db input).0 input.email input.password
        ≡ stored row
  unfolding authenticate_user find
  authenticates_created input row runs' law e active fresh r =
      let (h, g, is_row, j, rows) = create_user-stored input row e in
      let p = λ (u : AccountRow).
        text_eq u.email (to_lower (trim_space input.email)) && text_eq u.status (codes "active") in
      let unknown =
        find-email (to_lower (trim_space input.email)) (pos db.next_id) db.rows
          (judged_unique (new_user db input h) j) fresh in
      let email : text_eq row.email (to_lower (trim_space input.email)) ≡ true =
        (text_eq_iff row.email (to_lower (trim_space input.email))).1 (ap (λ u. u.email) is_row) in
      let status : text_eq row.status (codes "active") ≡ true =
        (text_eq_iff row.status (codes "active")).1 active in
      let at : find p (create_user pw runs db input).0.rows ≡ some row =
        ap (find p) rows
        ∙ find-append p db.rows (row ∷ []) unknown
        ∙ ground (arith, email, status) in
      let right : pw.compare row.password_hash input.password ≡ true =
        ap (λ u. pw.compare u.password_hash input.password) is_row ∙ law input.password h g in
      ground (arith, r, at, right)

-- The claims of a token that is issued to a user.
abbrev pub claims_of : AccountRow → ℤ → UserClaims
claims_of row now = record {
  sub = row.id;
  email = trim_space row.email;
  full_name = trim_space row.full_name;
  exp = now +ℤ week;
}

module _ (codec : Codec UserClaims) (laws : CodecLaws codec) (secret : Text) where
  token_passes :
      (row : AccountRow) (now later : ℤ) (token : Text)
      → issue_user_token codec secret row.id row.email row.full_name now week ≡ some token
      → is_positive row.id ≡ true
      → later <ℤ now +ℤ week
      → tenant_user_auth (some (codec, secret)) later (codes "Bearer " ++ token)
        ≡ authenticated (claims_of row now)
  unfolding issue_user_token tenant_user_auth cut_prefix
  token_passes row now later token issued valid soon =
      let (solid, filled) =
        issue_token_solid codec user_kind laws secret token (claims_of row now) issued in
      let parsed =
        parse_token-issue_token codec user_kind laws secret token (claims_of row now) later issued
          valid soon in
      rw (solid, filled, parsed) refl

  -- A user whom the console has created as active can sign in with the email, and the password, and the middleware of the portal accepts the token with
  -- the user's id for a week. The sequence's next number is positive and not taken, the statement of
  -- the sign-in runs, and a token can be issued.
  pub login-created :
      (pw : Passwords) (runs runs' : AccountStage → Bool) (db : Accounts) (input : UserInput)
      (row : AccountRow) (now later : ℤ) (token : Text)
      → ((password hash : Text)
          → pw.generate password ≡ some hash
          → pw.compare hash password ≡ true)
      → (create_user pw runs db input).1 ≡ stored row
      → row.status ≡ codes "active"
      → is_positive row.id ≡ true
      → All (λ r. eqb_ℤ r.id (pos db.next_id) ≡ false) db.rows
      → runs' select_by_email ≡ true
      → issue_user_token codec secret row.id row.email row.full_name now week ≡ some token
      → later <ℤ now +ℤ week
      → (login pw codec secret runs'
            (create_user pw runs db input).0
            true
            now
            (some (input.email, input.password))
          ≡ logged_in row token)
        × (tenant_user_auth (some (codec, secret)) later (codes "Bearer " ++ token)
            ≡ authenticated (claims_of row now))
  unfolding login
  login-created pw runs runs' db input row now later token law e active valid fresh r issued soon =
      let signed_in = authenticates_created pw runs db input row runs' law e active fresh r in
      (rw (signed_in, issued) refl, token_passes row now later token issued valid soon)
