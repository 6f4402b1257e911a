-- ===== src/Examples/SignIns.antt =====
-- The sign-in of a user, at concrete inputs.
use wcs_transfer.Base.{
  ℕ, ◌≡◌, refl, ap, true, Bool, Option, none, some, [], ◌∷◌, ◌++◌, map, if◌then◌else◌, ◌==◌, arith,
  length, take, drop, ℤ, pos, negsuc, ◌+ℤ◌, Text, codes, text_eq, text_eq_iff, trim_space, to_lower,
}
use wcs_transfer.Tokens.{Codec, CodecLaws, UserClaims, issue_token}
use wcs_transfer.Portal.{tenant_user_auth, authenticated}
use wcs_transfer.Catalog.Writes.{invalid_input}
use wcs_transfer.Users.{
  AccountRow, Accounts, AccountStage, Passwords, UserInput, create_user, logged_in, login,
}
use wcs_transfer.Users.SignIn.{claims_of, login-created}
use wcs_transfer.Examples.Polling.{high, low, map-IsPlain, low-high}

abbrev int_codes : ℤ → Text
int_codes (pos n) = 0 ∷ n ∷ []
int_codes (negsuc n) = 1 ∷ n ∷ []

abbrev int_of : ℕ → ℕ → ℤ
int_of sign n = if sign == 0 then pos n else negsuc n

abbrev claims_codes : UserClaims → Text
claims_codes c = int_codes c.sub ++ int_codes c.exp ++ length c.email ∷ c.email ++ c.full_name

abbrev read_codes : Text → Option UserClaims
read_codes (a ∷ b ∷ x ∷ y ∷ n ∷ rest) =
    some
      (record { sub = int_of a b; email = take n rest; full_name = drop n rest; exp = int_of x y })
read_codes _ = none

take-length : (a b : Text) → take (length a) (a ++ b) ≡ a
take-length [] b = refl
take-length (c ∷ a) b = ap (◌∷◌ c) (take-length a b)

drop-length : (a b : Text) → drop (length a) (a ++ b) ≡ b
drop-length [] b = refl
drop-length (c ∷ a) b = drop-length a b

read-codes :
    (sub exp : ℤ) (email full_name : Text)
    → read_codes
        (claims_codes (record { sub = sub; email = email; full_name = full_name; exp = exp }))
      ≡ some (record { sub = sub; email = email; full_name = full_name; exp = exp })
read-codes (pos a) (pos b) email full_name =
    rw (take-length email full_name, drop-length email full_name) refl
read-codes (pos a) (negsuc b) email full_name =
    rw (take-length email full_name, drop-length email full_name) refl
read-codes (negsuc a) (pos b) email full_name =
    rw (take-length email full_name, drop-length email full_name) refl
read-codes (negsuc a) (negsuc b) email full_name =
    rw (take-length email full_name, drop-length email full_name) refl

abbrev plain_codec : Codec UserClaims
plain_codec = record {
  sign = λ secret value. map high (secret ++ value);
  encode_base64 = map high;
  decode_base64 = λ s. some (map low s);
  marshal = λ c. some (claims_codes c);
  unmarshal = read_codes;
}

plain_laws : CodecLaws plain_codec
plain_laws = record {
  sign-IsPlain = λ secret value. map-IsPlain (secret ++ value);
  encode_base64-IsPlain = map-IsPlain;
  decode-encode = λ s. ap some (low-high s);
  unmarshal-marshal = λ c s e.
      let same : claims_codes c ≡ s = ground (arith, e) in
      rw (← same) (read-codes c.sub c.exp c.email c.full_name);
}

-- A password is its own hash.
abbrev passwords : Passwords
passwords = record { generate = λ p. some p; compare = text_eq }

passwords_law :
    (password hash : Text)
    → passwords.generate password ≡ some hash
    → passwords.compare hash password ≡ true
passwords_law password hash e =
    let same : password ≡ hash = ground (arith, e) in
    rw (← same) ((text_eq_iff password password).1 refl)

abbrev nobody : Accounts
nobody = record { rows = []; next_id = 4 }

abbrev every_stage : AccountStage → Bool
every_stage stage = true

abbrev ann : UserInput
ann = record {
  email = codes " Ann@X";
  password = codes "longenough";
  full_name = codes "Ann";
  status = [];
}

abbrev ann_row : AccountRow
ann_row = record {
  id = pos 4;
  email = codes "ann@x";
  password_hash = codes "longenough";
  full_name = codes "Ann";
  status = codes "active";
}

abbrev ann_token : Text
ann_token =
    map high (claims_codes (claims_of ann_row (pos 100)))
    ++ 46 ∷ map high (1 ∷ map high (claims_codes (claims_of ann_row (pos 100))))

short_password :
    (create_user passwords every_stage nobody (record ann { password = codes "short" })).1
    ≡ invalid_input (codes "password must be at least 8 characters")
unfolding wcs_transfer.Users.create_user_form trim_space
short_password = refl

login-created_example :
    (login passwords plain_codec
        (1 ∷ [])
        every_stage
        (create_user passwords every_stage nobody ann).0
        true
        (pos 100)
        (some (codes " Ann@X", codes "longenough"))
      ≡ logged_in ann_row ann_token)
    × (tenant_user_auth (some (plain_codec, 1 ∷ [])) (pos 600000) (codes "Bearer " ++ ann_token)
        ≡ authenticated (claims_of ann_row (pos 100)))
unfolding wcs_transfer.Users.create_user_form wcs_transfer.Users.login
    wcs_transfer.Tokens.issue_token trim_space to_lower ◌+ℤ◌
login-created_example =
    login-created plain_codec plain_laws (1 ∷ []) passwords every_stage every_stage nobody ann
      ann_row (pos 100) (pos 600000) ann_token passwords_law refl refl refl tt refl refl
      (omega arith)
