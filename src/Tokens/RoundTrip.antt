-- ===== src/Tokens/RoundTrip.antt =====
-- Which tokens are accepted (backend/internal/service/adminauth, userauth and tenantauth).
use wcs_transfer.Base.{
  ◌≡◌, refl, sym, ap, ◌≢◌, inl, inr, true, false, some, List, [], ◌∷◌, ◌++◌, arith, Option-cases,
  All, All-append, ℤ, ◌<ℤ◌, leb_ℤ, Text, text_eq, is_empty, is_space, trim_left, trim_space,
  text_eq_iff,
}
use mathlib.Core.List.{reverse, reverse_aux, reverse-reverse}
use wcs_transfer.Tokens.{
  split, dot, Codec, CodecLaws, IsPlain, accepted, ClaimKind, issue_token, read_claims, check_parts,
  parse_token,
}

split-plain : (a : Text) → All IsPlain a → split dot a ≡ a ∷ []
unfolding split
split-plain [] h = refl
split-plain (c ∷ a) ((no_dot, no_space), h) = rw (no_dot, split-plain a h) refl

split-pair : (a b : Text) → All IsPlain a → All IsPlain b → split dot (a ++ dot ∷ b) ≡ a ∷ b ∷ []
unfolding split
split-pair [] b h k = rw (split-plain b k) refl
split-pair (c ∷ a) b ((no_dot, no_space), h) k = rw (no_dot, split-pair a b h k) refl

abbrev Solid : Text → Type 0
Solid s = All (λ c. is_space c ≡ false) s

Solid-plain : (s : Text) → All IsPlain s → Solid s
Solid-plain [] h = tt
Solid-plain (c ∷ s) ((no_dot, no_space), h) = (no_space, Solid-plain s h)

trim_left-Solid : (s : Text) → Solid s → trim_left s ≡ s
unfolding trim_left
trim_left-Solid [] h = refl
trim_left-Solid (c ∷ s) (solid, h) = rw solid refl

Solid-reverse_aux : (s t : Text) → Solid s → Solid t → Solid (reverse_aux s t)
Solid-reverse_aux [] t h k = k
Solid-reverse_aux (c ∷ s) t (solid, h) k = Solid-reverse_aux s (c ∷ t) h (solid, k)

trim_space-Solid : (s : Text) → Solid s → trim_space s ≡ s
unfolding trim_space
trim_space-Solid s h =
    rw (trim_left-Solid s h)
      (rw (trim_left-Solid (reverse s) (Solid-reverse_aux s [] h tt)) (reverse-reverse s))

filled : (a b : Text) → is_empty (a ++ dot ∷ b) ≡ false
filled [] b = refl
filled (c ∷ a) b = refl

module _ {C : Type 0} (codec : Codec C) (kind : ClaimKind C) where
  check_parts-signed :
      (laws : CodecLaws codec) (secret payload : Text) (claims : C) (now : ℤ)
      → codec.marshal claims ≡ some payload
      → kind.has_subject claims ≡ true
      → now <ℤ kind.expires claims
      → check_parts codec kind secret now
          (codec.encode_base64 payload ∷ codec.sign secret (codec.encode_base64 payload) ∷ [])
        ≡ accepted claims
  unfolding check_parts read_claims
  check_parts-signed laws secret payload claims now marshalled valid fresh =
      let encoded = codec.encode_base64 payload in
      let right : text_eq (codec.sign secret encoded) (codec.sign secret encoded) ≡ true =
        (text_eq_iff (codec.sign secret encoded) (codec.sign secret encoded)).1 refl in
      let live : leb_ℤ (kind.expires claims) now ≡ false = ground (arith, fresh) in
      rw
        (
          right,
          read_claims,
          laws.decode-encode payload,
          laws.unmarshal-marshal claims payload marshalled,
          valid,
          live,
        )
        refl

  -- What an accepted token is.
  abbrev pub IsSigned : Text → ℤ → Text → C → Type 0
  IsSigned secret now token claims =
      (encoded : Text) × (payload : Text) × (secret ≢ [])
      × (split dot (trim_space token) ≡ encoded ∷ codec.sign secret encoded ∷ [])
      × (codec.decode_base64 encoded ≡ some payload)
      × (codec.unmarshal payload ≡ some claims)
      × (kind.has_subject claims ≡ true)
      × (now <ℤ kind.expires claims)

  read_claims-accepted :
      (now : ℤ) (encoded : Text) (claims : C)
      → read_claims codec kind now encoded ≡ accepted claims
      → (payload : Text) × (codec.decode_base64 encoded ≡ some payload)
        × (codec.unmarshal payload ≡ some claims)
        × (kind.has_subject claims ≡ true)
        × (now <ℤ kind.expires claims)
  unfolding read_claims
  read_claims-accepted now encoded claims e = elim (Option-cases (codec.decode_base64 encoded)) [
    | inl n ↦ absurd (ground (arith, n, e))
    | inr (payload, decoded) ↦ (
      payload,
      decoded,
      ground (arith, decoded, e),
      ground (arith, decoded, e),
      ground (arith, decoded, e),
    )
  ]

  check_parts-accepted :
      (secret : Text) (now : ℤ) (parts : List Text) (claims : C)
      → check_parts codec kind secret now parts ≡ accepted claims
      → (encoded : Text) × (parts ≡ encoded ∷ codec.sign secret encoded ∷ [])
        × (read_claims codec kind now encoded ≡ accepted claims)
  unfolding check_parts
  check_parts-accepted secret now [] claims e = cc
  check_parts-accepted secret now (a ∷ []) claims e = cc
  check_parts-accepted secret now (a ∷ b ∷ c ∷ parts) claims e = cc
  check_parts-accepted secret now (encoded ∷ signature ∷ []) claims e =
      let right : text_eq (codec.sign secret encoded) signature ≡ true = ground (arith, e) in
      let same = (text_eq_iff (codec.sign secret encoded) signature).0 right in
      (encoded, ap (λ s. encoded ∷ s ∷ []) (sym same), rw right at e)

  -- A token is accepted only if there is a secret, and it is a payload with its signature under
  -- that secret, whose claims have a valid subject and are not expired.
  pub parse_token-IsSigned :
      (secret : Text) (now : ℤ) (token : Text) (claims : C)
      → parse_token codec kind secret now token ≡ accepted claims
      → IsSigned secret now token claims
  unfolding parse_token
  parse_token-IsSigned [] now token claims e = cc
  parse_token-IsSigned (b ∷ secret) now token claims e =
      let (encoded, parts, read) =
        check_parts-accepted (b ∷ secret) now (split dot (trim_space token)) claims e in
      let (payload, decoded, unmarshalled, subject, live) =
        read_claims-accepted now encoded claims read in
      (encoded, payload, λ empty. cc, parts, decoded, unmarshalled, subject, live)

  -- An issued token has no spaces around it, and something in it.
  pub issue_token_solid :
      (laws : CodecLaws codec) (secret token : Text) (claims : C)
      → issue_token codec kind secret claims ≡ some token
      → (trim_space token ≡ token) × (is_empty token ≡ false)
  unfolding issue_token
  issue_token_solid laws secret token claims issued = elim (Option-cases (codec.marshal claims)) [
    | inl unmarshalled ↦ absurd (ground (arith, issued, unmarshalled))
    | inr (payload, marshalled) ↦
        let encoded = codec.encode_base64 payload in
        let signature = codec.sign secret encoded in
        let is_token : encoded ++ dot ∷ signature ≡ token = ground (arith, issued, marshalled) in
        rw (← is_token) (
          trim_space-Solid (encoded ++ dot ∷ signature) (
              All-append (λ c. is_space c ≡ false) encoded (dot ∷ signature)
                (Solid-plain encoded (laws.encode_base64-IsPlain payload))
                (refl, Solid-plain signature (laws.sign-IsPlain secret encoded))),
          filled encoded signature,
        )
  ]

  -- A token that is issued for a valid subject is accepted with the same claims until it expires.
  pub parse_token-issue_token :
      (laws : CodecLaws codec) (secret token : Text) (claims : C) (now : ℤ)
      → issue_token codec kind secret claims ≡ some token
      → kind.has_subject claims ≡ true
      → now <ℤ kind.expires claims
      → parse_token codec kind secret now token ≡ accepted claims
  unfolding parse_token issue_token
  parse_token-issue_token laws secret token claims now issued valid fresh =
      elim (Option-cases (codec.marshal claims)) [
        | inl unmarshalled ↦ absurd (ground (arith, issued, unmarshalled))
        | inr (payload, marshalled) ↦
            (let encoded = codec.encode_base64 payload in
              let keyed : is_empty secret ≡ false = ground (arith, issued) in
              let is_token : encoded ++ dot ∷ codec.sign secret encoded ≡ token =
                ground (arith, issued, marshalled) in
              let encoded_plain = laws.encode_base64-IsPlain payload in
              let signature_plain = laws.sign-IsPlain secret encoded in
              let solid : Solid (encoded ++ dot ∷ codec.sign secret encoded) =
                All-append (λ c. is_space c ≡ false) encoded (dot ∷ codec.sign secret encoded)
                  (Solid-plain encoded encoded_plain)
                  (refl, Solid-plain (codec.sign secret encoded) signature_plain) in
              let parts : split dot (trim_space token) ≡ encoded ∷ codec.sign secret encoded ∷ [] =
                rw (← is_token) (
                  rw (trim_space-Solid (encoded ++ dot ∷ codec.sign secret encoded) solid) (
                    split-pair encoded (codec.sign secret encoded) encoded_plain
                      signature_plain)) in
              rw (keyed, parts)
                (check_parts-signed laws secret payload claims now marshalled valid fresh))
      ]
