-- ===== src/Portal/Debug/Expired.antt =====
-- What the portal's debug route asks of a key, and what it does not
-- (backend/internal/router/router.go; backend/internal/repository/postgres/store.go:
-- `AuthenticateClientAPIKey`).
use wcs_transfer.Base.{
  ◌≡◌, refl, Bool-cases, true, false, ◌||◌, none, some, List, [], ◌∷◌, arith, All, inl, inr, ℤ,
  ◌≤ℤ◌, Text, codes, text_eq, text_eq_iff, is_empty,
}
use wcs_transfer.Entity.{Time, ModelRoute, ClientApiKey}
use wcs_transfer.Checks
use wcs_transfer.ClientKeys.{KeyRow, Tables, Session, found, Given, find, hash_client_api_key}
use wcs_transfer.ClientKeys.Writes.{get_user_client_api_key_by_id}
use wcs_transfer.ClientKeys.Authenticate.{admits, authenticate_client_api_key, key_of}
use wcs_transfer.Portal.Debug.{
  DebugRequest, Debug, normalize_type, hand_over, no_keys, check_route, check_request, parse_int64,
  debug_chat_completions,
}
use wcs_transfer.Portal.Debug.Handed.{is_handed}

module _ (d : Debug) (given : Given) (session : Session) (t : Tables) where
  find-expired :
      (rows : List KeyRow) (key_hash : Text) (expires : Time)
      → expires ≤ℤ session.now
      → All (λ row. (text_eq row.key_hash key_hash ≡ true) → (row.expires_at ≡ some expires)) rows
      → find (admits session.now key_hash) rows ≡ none
  unfolding find admits
  find-expired [] key_hash expires late h = refl
  find-expired (row ∷ rows) key_hash expires late (x, h) =
      elim (Bool-cases (text_eq row.key_hash key_hash)) [
        | inl e ↦ ground (arith, e, x e, late, find-expired rows key_hash expires late h)
        | inr e ↦ ground (arith, e, find-expired rows key_hash expires late h)
      ]

  authenticate-expired :
      (raw_key : Text) (expires : Time)
      → expires ≤ℤ session.now
      → All
          (λ row.
            (text_eq row.key_hash (hash_client_api_key given raw_key) ≡ true)
            → (row.expires_at ≡ some expires))
          t.keys
      → key_of (authenticate_client_api_key given session t raw_key).1 ≡ none
  unfolding authenticate_client_api_key
  authenticate-expired raw_key expires late h =
      ground (arith, find-expired t.keys (hash_client_api_key given raw_key) expires late h)

  check_route-passes :
      (key : ClientApiKey) (req : DebugRequest) (body : Text) (route : ModelRoute)
      → no_keys route.keys ≡ false
      → text_eq (normalize_type req.provider_type) (normalize_type route.provider.provider_type)
        ≡ true
      → is_handed (check_route d key req body route) ≡ true
  unfolding check_route hand_over
  check_route-passes key req body route keyed h = ground (arith, keyed, h)

  -- An active key that has expired is refused by the public endpoints, and is still passed on by the
  -- debug route, whatever its limits and its user's wallet: for a request that names a model and the
  -- kind of its provider, which has keys. Rows with the hash of the secret expire when the key does.
  pub debug_chat_completions-expired :
      (user_id key_id : ℤ) (id body raw_key : Text) (key : ClientApiKey) (expires : Time)
      (req : DebugRequest) (route : ModelRoute)
      → parse_int64 id ≡ some key_id
      → get_user_client_api_key_by_id given session t user_id key_id ≡ found key
      → key.status ≡ codes "active"
      → key.expires_at ≡ some expires
      → expires ≤ℤ session.now
      → All
          (λ row.
            (text_eq row.key_hash (hash_client_api_key given raw_key) ≡ true)
            → (row.expires_at ≡ key.expires_at))
          t.keys
      → d.read_request body ≡ some req
      → (is_empty req.model || is_empty req.provider_type) ≡ false
      → d.resolve_model_route req.model ≡ Checks.found route
      → no_keys route.keys ≡ false
      → text_eq (normalize_type req.provider_type) (normalize_type route.provider.provider_type)
        ≡ true
      → (is_handed (debug_chat_completions d given session t (some user_id) id (some body)) ≡ true)
        × (key_of (authenticate_client_api_key given session t raw_key).1 ≡ none)
  unfolding debug_chat_completions check_request
  debug_chat_completions-expired user_id key_id id body raw_key key expires req route p q active
        expiry late only x y z keyed types =
      let s : text_eq key.status (codes "active") ≡ true =
        (text_eq_iff key.status (codes "active")).1 active in
      (
        ground (arith, p, q, s, x, y, z, check_route-passes key req body route keyed types),
        authenticate-expired raw_key expires late (rw (← expiry) only),
      )
