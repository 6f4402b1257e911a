-- ===== src/Portal/Changes.antt =====
-- What a request of the portal can change in the table of client keys
-- (backend/internal/api/tenant/handler.go; backend/internal/repository/postgres/store.go).
use wcs_transfer.Base.{
  ℕ, ◌≡◌, refl, ap, ◌∙◌, ◌⊎◌, inl, inr, false, Bool-cases, Option, none, some, Option-cases, List,
  [], ◌∷◌, ◌++◌, arith, ℤ, Text, trim_space,
}
use wcs_transfer.Entity.{ClientApiKey}
use wcs_transfer.ClientKeys.{
  KeyRow, Tables, begin, Session, KeyResult, found, failed, no_rows, Given,
  generate_client_api_key_material, nullable_int64, find,
}
use wcs_transfer.ClientKeys.Writes.{
  KeyInput, new_row, has_hash, fits, next_taken, sync_client_api_key_models, finish_write,
  insert_key, create_client_api_key, change_rows, is_users, change_user_key, disabled_row,
  disable_user_client_api_key, rename_user_client_api_key,
}
use wcs_transfer.ClientKeys.Writes.Laws.{sum_cases, sync-SameBut}
use wcs_transfer.Portal.{
  Answer, created, item, CreateClientKeyRequest, list_client_keys, parse_resource_id, Portal,
  or_error, portal_input, parse_expires_at, create_client_key, rename_client_key,
  disable_client_key, Request, create, rename, disable, list, handle,
}

abbrev pub named_row : Text → KeyRow → KeyRow
named_row name row = record row { name = name }

-- The rows before and after a request of a user: the same, one more row of that user with a new
-- hash, or one of that user's rows changed.
pub data Changed (user_id : ℤ) (rows rows' : List KeyRow) : Type 0 where
  same : rows' ≡ rows → Changed user_id rows rows'
  added :
      (row : KeyRow)
      → row.user_id ≡ nullable_int64 user_id
      → has_hash row.key_hash rows ≡ false
      → rows' ≡ rows ++ row ∷ []
      → Changed user_id rows rows'
  disabled :
      (id : ℤ)
      → rows' ≡ change_rows (is_users user_id id) disabled_row rows
      → Changed user_id rows rows'
  renamed :
      (id : ℤ) (name : Text)
      → rows' ≡ change_rows (is_users user_id id) (named_row name) rows
      → Changed user_id rows rows'

module _ (given : Given) (session : Session) where
  finish_write-keys :
      (before t : Tables) (key_id : ℕ) (ids : List ℤ)
      → ((finish_write given session before t key_id ids).0.keys ≡ before.keys)
        ⊎ ((finish_write given session before t key_id ids).0.keys ≡ t.keys)
  unfolding finish_write
  finish_write-keys before t key_id ids =
      elim (sum_cases (sync_client_api_key_models session t key_id ids)) [
        | inl (t', e) ↦ ground (arith, e, sync-SameBut session t t' key_id ids)
        | inr (stage, e) ↦ ground (arith, e)
      ]

  insert_key-keys :
      (t : Tables) (row : KeyRow) (ids : List ℤ)
      → ((insert_key given session t row ids).0.keys ≡ t.keys)
        ⊎ ((has_hash row.key_hash t.keys ≡ false)
            × ((insert_key given session t row ids).0.keys ≡ t.keys ++ row ∷ []))
  unfolding insert_key fits
  insert_key-keys t row ids = ground (
    arith,
    finish_write-keys (next_taken t) (record (next_taken t) { keys = t.keys ++ row ∷ [] }) row.id
        ids,
  )

  create-Changed :
      (random : Option Text) (t : Tables) (input : KeyInput)
      → Changed input.user_id t.keys (create_client_api_key given session random t input).0.keys
  unfolding create_client_api_key
  create-Changed random t input =
      elim (Option-cases (generate_client_api_key_material given random)) [
        | inl e ↦ same (ground (arith, e))
        | inr ((plain_key, key_hash, masked_key), e) ↦
            let row = new_row t.next_id input key_hash masked_key in
            elim (Bool-cases (session.runs begin)) [
              | inr b ↦ same (ground (arith, e, b))
              | inl b ↦ elim (insert_key-keys t row input.allowed_model_ids) [
                | inl kept ↦ same (ground (arith, e, b, kept))
                | inr (new, appended) ↦ added row refl new (ground (arith, e, b, appended))
              ]
            ]
      ]

  change_user_key-keys :
      (t : Tables) (user_id id : ℤ) (f : KeyRow → KeyRow)
      → ((change_user_key given session t user_id id f).0.keys ≡ t.keys)
        ⊎ ((change_user_key given session t user_id id f).0.keys
            ≡ change_rows (is_users user_id id) f t.keys)
  unfolding change_user_key
  change_user_key-keys t user_id id f = elim (Option-cases (find (is_users user_id id) t.keys)) [
    | inl e ↦ ground (arith, e)
    | inr (row, e) ↦ ground (arith, e)
  ]

or_error-keys :
    (status : ℕ) (answer : ClientApiKey → Answer) (r : Tables × KeyResult)
    → (or_error status answer r).0 ≡ r.0
or_error-keys status answer (t, found key) = refl
or_error-keys status answer (t, failed stage) = refl
or_error-keys status answer (t, no_rows) = refl

module _ (given : Given) (portal : Portal) (t : Tables) (user_id : ℤ) where
  -- A handler's answer leaves what the store did.
  Changed-answered :
      (status : ℕ) (answer : ClientApiKey → Answer) (r : Tables × KeyResult) (rows' : List KeyRow)
      → rows' ≡ (or_error status answer r).0.keys
      → Changed user_id t.keys r.0.keys
      → Changed user_id t.keys rows'
  Changed-answered status answer r rows' e h =
      let kept = ap (λ s. s.keys) (or_error-keys status answer r) in
      elim h [
        | same k ↦ same (e ∙ kept ∙ k)
        | added row owner new k ↦ added row owner new (e ∙ kept ∙ k)
        | disabled id k ↦ disabled id (e ∙ kept ∙ k)
        | renamed id name k ↦ renamed id name (e ∙ kept ∙ k)
      ]

  create_client_key-Changed :
      (body : Option CreateClientKeyRequest)
      → Changed user_id t.keys (create_client_key given portal t (some user_id) body).0.keys
  unfolding create_client_key
  create_client_key-Changed none = same (ground arith)
  create_client_key-Changed (some request) = elim (Bool-cases portal.has_key_store) [
    | inr e ↦ same (ground (arith, e))
    | inl e ↦ elim (Option-cases (parse_expires_at portal.parse_time request.expires_at)) [
      | inl n ↦ same (ground (arith, e, n))
      | inr (expires_at, p) ↦
          let r =
            create_client_api_key given portal.session portal.random t
              (portal_input user_id request expires_at) in
          Changed-answered 400 created r _ (ground (arith, e, p)) (
            create-Changed given portal.session portal.random t
              (portal_input user_id request expires_at))
    ]
  ]

  rename_client_key-Changed :
      (id : Text) (body : Option Text)
      → Changed user_id t.keys (rename_client_key given portal t (some user_id) id body).0.keys
  unfolding rename_client_key rename_user_client_api_key
  rename_client_key-Changed id body = elim (Bool-cases portal.has_key_store) [
    | inr e ↦ same (ground (arith, e))
    | inl e ↦ elim (Option-cases (parse_resource_id id)) [
      | inl n ↦ same (ground (arith, e, n))
      | inr (key_id, p) ↦ elim (Option-cases body) [
        | inl b ↦ same (ground (arith, e, p, b))
        | inr (name, b) ↦
            let f = named_row (trim_space name) in
            let r = change_user_key given portal.session t user_id key_id f in
            Changed-answered 400 item r _ (ground (arith, e, p, b))
              (elim (change_user_key-keys given portal.session t user_id key_id f) [
                | inl k ↦ same k
                | inr k ↦ renamed key_id (trim_space name) k
              ])
      ]
    ]
  ]

  disable_client_key-Changed :
      (id : Text)
      → Changed user_id t.keys (disable_client_key given portal t (some user_id) id).0.keys
  unfolding disable_client_key disable_user_client_api_key
  disable_client_key-Changed id = elim (Bool-cases portal.has_key_store) [
    | inr e ↦ same (ground (arith, e))
    | inl e ↦ elim (Option-cases (parse_resource_id id)) [
      | inl n ↦ same (ground (arith, e, n))
      | inr (key_id, p) ↦
          let r = change_user_key given portal.session t user_id key_id disabled_row in
          Changed-answered 400 item r _ (ground (arith, e, p))
            (elim (change_user_key-keys given portal.session t user_id key_id disabled_row) [
              | inl k ↦ same k
              | inr k ↦ disabled key_id k
            ])
    ]
  ]

  pub handle-Changed :
      (request : Request)
      → Changed user_id t.keys (handle given portal t (some user_id) request).0.keys
  unfolding handle list_client_keys
  handle-Changed (create body) = create_client_key-Changed body
  handle-Changed (rename id body) = rename_client_key-Changed id body
  handle-Changed (disable id) = disable_client_key-Changed id
  handle-Changed list = same (ground arith)
