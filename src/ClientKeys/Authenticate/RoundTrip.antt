-- ===== src/ClientKeys/Authenticate/RoundTrip.antt =====
-- A key that was created gets in (backend/internal/repository/postgres/store.go:
-- `CreateClientAPIKey`, `AuthenticateClientAPIKey`).
use wcs_transfer.Base.{
  ◌≡◌, refl, ap, sym, ◌∙◌, Bool, true, false, none, some, List, [], ◌∷◌, arith, if◌then◌else◌,
  ltb_ℤ, pos, Text, codes, text_eq_iff,
}
use wcs_transfer.Entity.{Time, ClientApiKey}
use wcs_transfer.ClientKeys.{
  KeyRow, Tables, authenticate, Session, found, Given, find, or_default, sum_spent, has_id,
  get_client_api_key_by_id, scan_client_api_key,
}
use wcs_transfer.ClientKeys.Writes.{KeyInput, has_hash, fits, create_client_api_key}
use wcs_transfer.ClientKeys.Writes.Laws.{
  find-append, created_key, created_row, create-found, Inserted,
}
use wcs_transfer.ClientKeys.Authenticate.{
  admits, has_active_user, used_row, authenticate_client_api_key,
}

-- No row with the hash, and none is admitted.
find-admits :
    (now : Time) (key_hash : Text) (rows : List KeyRow)
    → has_hash key_hash rows ≡ false
    → find (admits now key_hash) rows ≡ none
unfolding find admits
find-admits now key_hash [] h = refl
find-admits now key_hash (row ∷ rows) h = ground (arith, h, find-admits now key_hash rows)

admits_fresh :
    (now : Time) (row : KeyRow)
    → row.status ≡ codes "active"
    → or_default row.expires_at true (λ expires. ltb_ℤ now expires) ≡ true
    → admits now row.key_hash row ≡ true
unfolding admits
admits_fresh now row h k =
    ground
      (arith, h, k, text_eq_iff row.key_hash row.key_hash, text_eq_iff row.status (codes "active"))

module _ (given : Given) (session session' : Session) (suffix : Text) (t t' : Tables)
    (input : KeyInput) where
  abbrev new_key : KeyRow
  new_key = created_row given session suffix t input

  -- Where no row passes the test but the new one, the new one is found.
  find-new_key :
      (p : KeyRow → Bool)
      → Inserted given session t t' new_key
      → find p t.keys ≡ none
      → p new_key ≡ true
      → find p t'.keys ≡ some new_key
  unfolding find
  find-new_key p inserted fresh h =
      ap (λ s. find p s.keys) inserted
      ∙ find-append p t.keys (new_key ∷ []) fresh
      ∙ ap (λ b. if b then some new_key else none) h

  read_back :
      (read : ClientApiKey)
      → Inserted given session t t' new_key
      → find (has_id (pos t.next_id)) t.keys ≡ none
      → get_client_api_key_by_id given session t' (pos t.next_id) ≡ found read
      → read
        ≡ scan_client_api_key given session t' new_key
            (sum_spent new_key.id (λ created. true) t'.spent)
  unfolding get_client_api_key_by_id
  read_back read inserted fresh e =
      let at = find-new_key (has_id (pos t.next_id)) inserted fresh (ground arith) in
      ground (arith, e, at)

  lets_in :
      Inserted given session t t' new_key
      → fits t new_key ≡ true
      → input.status ≡ codes "active"
      → or_default input.expires_at true (λ expires. ltb_ℤ session'.now expires) ≡ true
      → has_active_user t new_key ≡ true
      → session'.runs authenticate ≡ true
      → (authenticate_client_api_key given session' t' (created_key given session suffix)).1
        ≡ found (scan_client_api_key given session' t' (used_row session'.now new_key) (pos 0))
  unfolding authenticate_client_api_key fits
  lets_in inserted fit active unexpired user runs =
      let unknown = find-admits session'.now new_key.key_hash t.keys (ground (arith, fit)) in
      let at =
        find-new_key (admits session'.now new_key.key_hash) inserted unknown
          (admits_fresh session'.now new_key active unexpired) in
      let user' : has_active_user t' new_key ≡ true =
        ap (λ s. has_active_user s new_key) inserted ∙ user in
      ground (arith, runs, at, user')

  -- The plain text that a creation answers with gets its holder in, with the key that was created: the
  -- same id, user and models. The key was created as active, of no user or an active one, the
  -- sequence's next id was not taken, the key has not expired by the session in which it is used,
  -- and that session's statement runs.
  pub create-authenticate :
      (item : ClientApiKey)
      → create_client_api_key given session (some suffix) t input ≡ (t', found item)
      → find (has_id (pos t.next_id)) t.keys ≡ none
      → input.status ≡ codes "active"
      → or_default input.expires_at true (λ expires. ltb_ℤ session'.now expires) ≡ true
      → has_active_user t new_key ≡ true
      → session'.runs authenticate ≡ true
      → (key : ClientApiKey) × ((authenticate_client_api_key given session' t' item.plain_api_key).1
          ≡ found key)
        × (key.id ≡ item.id)
        × (key.user_id ≡ item.user_id)
        × (key.allowed_models ≡ item.allowed_models)
  unfolding scan_client_api_key
  create-authenticate item e fresh active unexpired user runs =
      let (inserted, fit, read, got, is_item) =
        create-found given session suffix t t' input item e in
      let back : item
          ≡ record (scan_client_api_key given session t' new_key
              (sum_spent new_key.id (λ created. true) t'.spent)) {
                plain_api_key = created_key given session suffix;
              } =
        is_item
        ∙ ap {A = ClientApiKey} {B = ClientApiKey}
            (λ r. record r { plain_api_key = created_key given session suffix })
            (read_back read inserted fresh got) in
      (
        scan_client_api_key given session' t' (used_row session'.now new_key) (pos 0),
        ap (λ k. (authenticate_client_api_key given session' t' k.plain_api_key).1) back
            ∙ lets_in inserted fit active unexpired user runs,
        sym (ap (λ k. k.id) back),
        sym (ap (λ k. k.user_id) back),
        sym (ap (λ k. k.allowed_models) back),
      )
