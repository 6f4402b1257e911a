-- ===== src/ClientKeys/Writes/Laws.antt =====
-- What the writes to the client keys leave in the tables
-- (backend/internal/repository/postgres/store.go).
use wcs_transfer.Base.{
  ℕ, suc, ◌≡◌, refl, ◌⊎◌, inl, inr, Bool, true, Bool-cases, ◌&&◌, none, some, List, [], ◌∷◌, ◌++◌,
  arith, ℤ, pos, Text, codes,
}
use wcs_transfer.Entity.{ClientApiKey}
use wcs_transfer.ClientKeys.{
  KeyRow, Tables, write_key, begin, mask_client_key, hash_client_api_key,
  generate_client_api_key_material, Session, KeyResult, found, failed, no_rows, Given, find,
  get_client_api_key_by_id,
}
use wcs_transfer.ClientKeys.Writes.{
  KeyInput, next_taken, new_row, with_plain_key, create_client_api_key, sync_client_api_key_models,
  finish_write, fits, insert_key,
}

module _ {ℓ} {A : Type ℓ} (p : A → Bool) where
  pub find-append : (xs ys : List A) → find p xs ≡ none → find p (xs ++ ys) ≡ find p ys
  unfolding find
  find-append [] ys h = refl
  find-append (x ∷ xs) ys h = ground (arith, h, find-append xs ys)

-- The tables but for the models of keys.
abbrev pub SameBut : Tables → Tables → Type 0
SameBut t t' = t' ≡ record t { access = t'.access }

pub sum_cases {ℓ κ} :
    {A : Type ℓ} {B : Type κ} (s : A ⊎ B) → ((a : A) × (s ≡ inl a)) ⊎ ((b : B) × (s ≡ inr b))
sum_cases (inl a) = inl (a, refl)
sum_cases (inr b) = inr (b, refl)

pub sync-SameBut :
    (session : Session) (t t' : Tables) (key_id : ℕ) (ids : List ℤ)
    → sync_client_api_key_models session t key_id ids ≡ inl t'
    → SameBut t t'
unfolding sync_client_api_key_models
sync-SameBut session t t' key_id ids e = ground (arith, e)

module _ (given : Given) (session : Session) where
  pub finish_write-found :
      (before t t' : Tables) (key_id : ℕ) (ids : List ℤ) (item : ClientApiKey)
      → finish_write given session before t key_id ids ≡ (t', found item)
      → SameBut t t' × (get_client_api_key_by_id given session t' (pos key_id) ≡ found item)
  unfolding finish_write
  finish_write-found before t t' key_id ids item e =
      elim (sum_cases (sync_client_api_key_models session t key_id ids)) [
        | inl (t'', e') ↦ ground (arith, e, e', sync-SameBut session t t'' key_id ids)
        | inr (stage, e') ↦ ground (arith, e, e')
      ]

  abbrev pub Inserted : Tables → Tables → KeyRow → Type 0
  Inserted t t' row =
      t' ≡ record t { keys = t.keys ++ row ∷ []; next_id = suc t.next_id; access = t'.access }

  pub insert_key-found :
      (t t' : Tables) (row : KeyRow) (ids : List ℤ) (item : ClientApiKey)
      → insert_key given session t row ids ≡ (t', found item)
      → Inserted t t' row
        × (fits t row ≡ true)
        × (get_client_api_key_by_id given session t' (pos row.id) ≡ found item)
  unfolding insert_key
  insert_key-found t t' row ids item e = elim (Bool-cases (session.runs write_key && fits t row)) [
    | inl e' ↦
        let (same, read) =
          finish_write-found (next_taken t) (record (next_taken t) { keys = t.keys ++ row ∷ [] }) t'
            row.id ids item (ground (arith, e, e')) in
        (same, ground (arith, e'), read)
    | inr e' ↦ ground (arith, e, e')
  ]

  pub with_plain_key-found :
      (plain : Text) (result : KeyResult) (item : ClientApiKey)
      → with_plain_key plain result ≡ found item
      → (read : ClientApiKey) × (result ≡ found read)
        × (item ≡ record read { plain_api_key = plain })
  with_plain_key-found plain (found read) item e = (read, refl, ground (arith, e))
  with_plain_key-found plain (failed stage) item e = ground (arith, e)
  with_plain_key-found plain no_rows item e = ground (arith, e)

  abbrev pub created_key : Text → Text
  created_key suffix = codes "wcs_live_" ++ suffix

  abbrev pub created_row : Text → Tables → KeyInput → KeyRow
  created_row suffix t input =
      new_row t.next_id input (hash_client_api_key given (created_key suffix))
        (mask_client_key (created_key suffix))

  pub create-found :
      (suffix : Text) (t t' : Tables) (input : KeyInput) (item : ClientApiKey)
      → create_client_api_key given session (some suffix) t input ≡ (t', found item)
      → Inserted t t' (created_row suffix t input)
        × (fits t (created_row suffix t input) ≡ true)
        × (read : ClientApiKey) × (get_client_api_key_by_id given session t' (pos t.next_id)
            ≡ found read)
        × (item ≡ record read { plain_api_key = created_key suffix })
  unfolding create_client_api_key generate_client_api_key_material
  create-found suffix t t' input item e = elim (Bool-cases (session.runs begin)) [
    | inl e' ↦
        let result =
          insert_key given session t (created_row suffix t input) input.allowed_model_ids in
        let (read, is_read, is_item) =
          with_plain_key-found (created_key suffix) result.1 item (ground (arith, e, e')) in
        let (inserted, fit, got) =
          insert_key-found t t' (created_row suffix t input) input.allowed_model_ids read
            (ground (arith, e, e', is_read)) in
        (inserted, fit, read, got, is_item)
    | inr e' ↦ ground (arith, e, e')
  ]
