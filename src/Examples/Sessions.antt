-- ===== src/Examples/Sessions.antt =====
-- Sessions of administrators, at concrete inputs.
use wcs_transfer.Base.{
  ◌≡◌, refl, true, false, some, [], ◌∷◌, pos, codes, text_eq, trim_space, cut_prefix,
}
use wcs_transfer.Tokens.{Codec, AdminClaims, admin_kind}
use wcs_transfer.Tokens.RoundTrip.{IsSigned}
use wcs_transfer.Users.Admins.{
  goes_on, aborted, bearer_token, admin_auth, admin_auth-IsSigned, update_admin_login, admin_login,
  admin_error,
}

abbrev root_claims : AdminClaims
root_claims = record { sub = pos 1; username = codes "root"; display_name = []; exp = pos 900 }

-- One payload, and a signature that does not depend on it.
abbrev one_payload : Codec AdminClaims
one_payload = record {
  sign = λ secret value. codes "sig";
  encode_base64 = λ s. s;
  decode_base64 = λ s. some s;
  marshal = λ c. some (codes "p");
  unmarshal = λ s. some root_claims;
}

root_session :
    admin_auth (some (one_payload, codes "k")) (pos 800) (codes "Bearer p.sig")
    ≡ goes_on (some root_claims)
unfolding wcs_transfer.Users.Admins.admin_auth wcs_transfer.Tokens.split
    wcs_transfer.Tokens.parse_token trim_space cut_prefix
root_session = refl

expired_session :
    admin_auth (some (one_payload, codes "k")) (pos 900) (codes "Bearer p.sig") ≡ aborted 1001
unfolding wcs_transfer.Users.Admins.admin_auth wcs_transfer.Tokens.split
    wcs_transfer.Tokens.parse_token trim_space cut_prefix
expired_session = refl

admin_auth-IsSigned_example :
    (claims : AdminClaims) × (some root_claims ≡ some claims)
    × IsSigned one_payload admin_kind
        (codes "k")
        (pos 800)
        (bearer_token (codes "Bearer p.sig"))
        claims
admin_auth-IsSigned_example =
    admin_auth-IsSigned one_payload (codes "k") (pos 800) (codes "Bearer p.sig") (some root_claims)
      refl root_session

-- A sign-in whose time cannot be noted is an error.
unnoted :
    admin_login
      (record { generate = λ p. some p; compare = text_eq })
      (λ stage. elim stage [ update_admin_login ↦ false | _ ↦ true ])
      (record {
        id = pos 1;
        username = codes "root";
        display_name = [];
        password_hash = codes "s";
        status = codes "active";
      }
        ∷ [])
      true
      one_payload
      (codes "k")
      (pos 0)
      (some (codes " root", codes "s"))
    ≡ admin_error 3003
unfolding wcs_transfer.Users.Admins.admin_login trim_space
unnoted = refl
