-- ===== src/Tokens.antt =====
-- Signed tokens (backend/internal/service/adminauth, userauth and tenantauth, each `service.go`).
-- HMAC, base64 and the JSON of the claims are an interface with the laws the code relies on.
-- Times are seconds.
pub mod RoundTrip
use wcs_transfer.Base.{
  ℕ, ◌≡◌, Bool, false, not, ◌&&◌, Option, none, some, List, [], ◌∷◌, ◌++◌, ◌==◌, if◌then◌else◌, All,
  ℤ, ◌+ℤ◌, leb_ℤ, is_positive, Text, text_eq, is_empty, is_space, trim_space,
}

-- `strings.Split`, at a separator of one byte.
unfoldable pub split : ℕ → Text → List Text
split separator [] = [] ∷ []
split separator (c ∷ s) =
    let rest = split separator s in
    if c == separator
    then [] ∷ rest
    else (elim rest [ [] ↦ (c ∷ []) ∷ [] | part ∷ parts ↦ (c ∷ part) ∷ parts ])

abbrev pub dot : ℕ
dot = 46

-- `sign` is the base64 of the HMAC under the service's secret.
pub record Codec (C : Type 0) : Type 0 where
  pub sign : Text → Text → Text
  pub encode_base64 : Text → Text
  pub decode_base64 : Text → Option Text
  pub marshal : C → Option Text
  pub unmarshal : Text → Option C

-- What a byte of raw URL base64 is not.
abbrev pub IsPlain : ℕ → Type 0
IsPlain c = ((c == dot) ≡ false) × (is_space c ≡ false)

pub record CodecLaws {C : Type 0} (codec : Codec C) : Type 0 where
  pub sign-IsPlain : (secret value : Text) → All IsPlain (codec.sign secret value)
  pub encode_base64-IsPlain : (s : Text) → All IsPlain (codec.encode_base64 s)
  pub decode-encode : (s : Text) → codec.decode_base64 (codec.encode_base64 s) ≡ some s
  pub unmarshal-marshal : (c : C) (s : Text) → codec.marshal c ≡ some s → codec.unmarshal s ≡ some c

pub data Parsed (C : Type 0) : Type 0 where
  accepted : C → Parsed C
  secret_empty invalid_format invalid_signature invalid_payload invalid_claims invalid_subject
        token_expired :
      Parsed C

-- A kind of claims: when its subject is valid, and its time of expiry.
pub record ClaimKind (C : Type 0) : Type 0 where
  pub has_subject : C → Bool
  pub expires : C → ℤ

module _ {C : Type 0} (codec : Codec C) (kind : ClaimKind C) where
  -- `none` is an error. The claims are made by the callers below.
  unfoldable pub issue_token : Text → C → Option Text
  issue_token secret claims = if is_empty secret then none else (elim (codec.marshal claims) [
    | none ↦ none
    | some payload ↦
        let encoded = codec.encode_base64 payload in
        some (encoded ++ dot ∷ codec.sign secret encoded)
  ])

  -- The claims of a payload whose signature was right.
  unfoldable pub read_claims : ℤ → Text → Parsed C
  read_claims now encoded = elim (codec.decode_base64 encoded) [
    | none ↦ invalid_payload
    | some payload ↦ elim (codec.unmarshal payload) [
      | none ↦ invalid_claims
      | some claims ↦
          if not (kind.has_subject claims)
          then invalid_subject
          else (if leb_ℤ (kind.expires claims) now then token_expired else accepted claims)
    ]
  ]

  unfoldable pub check_parts : Text → ℤ → List Text → Parsed C
  unfolding read_claims
  check_parts secret now (encoded ∷ signature ∷ []) =
      if text_eq (codec.sign secret encoded) signature
      then read_claims now encoded
      else invalid_signature
  check_parts secret now [] = invalid_format
  check_parts secret now (encoded ∷ []) = invalid_format
  check_parts secret now (a ∷ b ∷ c ∷ rest) = invalid_format

  unfoldable pub parse_token : Text → ℤ → Text → Parsed C
  unfolding check_parts
  parse_token secret now token =
      if is_empty secret
      then secret_empty
      else check_parts secret now (split dot (trim_space token))

pub record AdminClaims : Type 0 where
  pub sub : ℤ
  pub username : Text
  pub display_name : Text
  pub exp : ℤ

abbrev pub admin_kind : ClaimKind AdminClaims
admin_kind = record {
  has_subject = λ c. is_positive c.sub && not (is_empty (trim_space c.username));
  expires = λ c. c.exp;
}

unfoldable pub issue_admin_token : Codec AdminClaims → Text → ℤ → Text → Text → ℤ → ℤ → Option Text
issue_admin_token codec secret user_id username display_name now ttl =
    issue_token codec admin_kind secret (record {
      sub = user_id;
      username = trim_space username;
      display_name = trim_space display_name;
      exp = now +ℤ ttl;
    })

pub record UserClaims : Type 0 where
  pub sub : ℤ
  pub email : Text
  pub full_name : Text
  pub exp : ℤ

abbrev pub user_kind : ClaimKind UserClaims
user_kind = record { has_subject = λ c. is_positive c.sub; expires = λ c. c.exp }

unfoldable pub issue_user_token : Codec UserClaims → Text → ℤ → Text → Text → ℤ → ℤ → Option Text
issue_user_token codec secret user_id email full_name now ttl =
    issue_token codec user_kind secret (record {
      sub = user_id;
      email = trim_space email;
      full_name = trim_space full_name;
      exp = now +ℤ ttl;
    })

pub record TenantClaims : Type 0 where
  pub sub : ℤ
  pub tenant_id : ℤ
  pub email : Text
  pub full_name : Text
  pub exp : ℤ

abbrev pub tenant_kind : ClaimKind TenantClaims
tenant_kind = record {
  has_subject = λ c. is_positive c.sub && is_positive c.tenant_id;
  expires = λ c. c.exp;
}

unfoldable pub issue_tenant_token :
    Codec TenantClaims → Text → ℤ → ℤ → Text → Text → ℤ → ℤ → Option Text
issue_tenant_token codec secret user_id tenant_id email full_name now ttl =
    issue_token codec tenant_kind secret (record {
      sub = user_id;
      tenant_id = tenant_id;
      email = trim_space email;
      full_name = trim_space full_name;
      exp = now +ℤ ttl;
    })
