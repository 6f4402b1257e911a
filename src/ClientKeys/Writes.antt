-- ===== src/ClientKeys/Writes.antt =====
-- The writes to the client keys (backend/internal/repository/postgres/store.go:
-- `CreateClientAPIKey`, `UpdateClientAPIKey`, `syncClientAPIKeyModels`, `DisableUserClientAPIKey`,
-- `RenameUserClientAPIKey`), and the readings for a user.
--
-- A transaction writes on a copy of the tables, which a commit that succeeds puts in their place;
-- a number that was taken of the sequence stays taken.
mod Rows
unfoldable pub use Rows.*
use wcs_transfer.Base.{
  ℕ, suc, Bool, true, false, not, ◌⊎◌, inl, inr, ◌&&◌, ◌||◌, Option, none, some, List, [], ◌∷◌,
  ◌++◌, if◌then◌else◌, map, filter, leb, ℤ, pos, eqb_ℤ, Text, codes,
}
pub mod Laws
use wcs_transfer.Entity.{ClientApiKey}
use wcs_transfer.ClientKeys.{
  KeyRow, Tables, Stage, generate, begin, write_key, clear_models, commit, list_keys, write_model,
  Session, KeyResult, found, failed, no_rows, Given, generate_client_api_key_material,
  normalize_int64_ids, find, sort_by, or_default, sum_spent, scan_client_api_key, has_id,
  get_client_api_key_by_id,
}

abbrev pub has_pair : ℕ → ℤ → List (ℕ × ℤ) → Bool
has_pair key_id model_id [] = false
has_pair key_id model_id ((k, m) ∷ pairs) =
    (eqb_ℤ (pos k) (pos key_id) && eqb_ℤ m model_id) || has_pair key_id model_id pairs

-- One `INSERT INTO client_api_key_models` for each id, up to the first that fails.
unfoldable pub insert_models :
    Session → List (ℤ × Text) → ℕ → List ℤ → List (ℕ × ℤ) → List (ℕ × ℤ) ⊎ Stage
unfolding find
insert_models session models key_id [] pairs = inl pairs
insert_models session models key_id (m ∷ ids) pairs =
    let rest = insert_models session models key_id ids (pairs ++ (key_id, m) ∷ []) in
    if session.runs (write_model m)
      && or_default (find (λ model. eqb_ℤ model.0 m) models) false (λ model. true)
      && not (has_pair key_id m pairs)
    then rest
    else inr (write_model m)

unfoldable pub sync_client_api_key_models : Session → Tables → ℕ → List ℤ → Tables ⊎ Stage
unfolding insert_models
sync_client_api_key_models session t key_id model_ids =
    if session.runs clear_models
    then elim (insert_models session t.models key_id (normalize_int64_ids model_ids)
        (filter (λ pair. not (eqb_ℤ (pos pair.0) (pos key_id))) t.access)) [
          | inl pairs ↦ inl (record t { access = pairs })
          | inr stage ↦ inr stage
        ]
    else inr clear_models

abbrev pub with_plain_key : Text → KeyResult → KeyResult
with_plain_key plain_key (found item) = found (record item { plain_api_key = plain_key })
with_plain_key plain_key (failed stage) = failed stage
with_plain_key plain_key no_rows = no_rows

-- The transaction's last steps: the models of the key, the commit, and the reading after it.
unfoldable pub finish_write : Given → Session → Tables → Tables → ℕ → List ℤ → Tables × KeyResult
unfolding sync_client_api_key_models get_client_api_key_by_id
finish_write given session before t key_id model_ids =
    elim (sync_client_api_key_models session t key_id model_ids) [
      | inr stage ↦ (before, failed stage)
      | inl t' ↦
          if session.runs commit
          then (t', get_client_api_key_by_id given session t' (pos key_id))
          else (before, failed commit)
    ]

abbrev pub next_taken : Tables → Tables
next_taken t = record t { next_id = suc t.next_id }

-- The insertion of a row and what follows it.
unfoldable pub insert_key : Given → Session → Tables → KeyRow → List ℤ → Tables × KeyResult
unfolding fits finish_write
insert_key given session t row model_ids =
    if session.runs write_key && fits t row
    then finish_write given session (next_taken t)
        (record (next_taken t) { keys = t.keys ++ row ∷ [] }) row.id model_ids
    else (next_taken t, failed write_key)

unfoldable pub create_client_api_key :
    Given → Session → Option Text → Tables → KeyInput → Tables × KeyResult
unfolding generate_client_api_key_material insert_key
create_client_api_key given session random t input =
    elim (generate_client_api_key_material given random) [
      | none ↦ (t, failed generate)
      | some (plain_key, key_hash, masked_key) ↦
          if session.runs begin
          then (let (t', result) =
                insert_key given session t (new_row t.next_id input key_hash masked_key)
                  input.allowed_model_ids in
              (t', with_plain_key plain_key result))
          else (t, failed begin)
    ]

-- `UPDATE ... WHERE`, of the rows that pass the test.
abbrev pub change_rows : (KeyRow → Bool) → (KeyRow → KeyRow) → List KeyRow → List KeyRow
change_rows p f rows = map (λ row. if p row then f row else row) rows

unfoldable pub update_client_api_key : Given → Session → Tables → ℤ → KeyInput → Tables × KeyResult
unfolding checks_row finish_write find
update_client_api_key given session t id input =
    if session.runs begin
    then (if session.runs write_key
        then elim (find (has_id id) t.keys) [
          | none ↦ (t, no_rows)
          | some row ↦
              if checks_row (updated_row input row)
              then finish_write given session t
                  (record t { keys = change_rows (has_id id) (updated_row input) t.keys }) row.id
                  input.allowed_model_ids
              else (t, failed write_key)
        ]
        else (t, failed write_key))
    else (t, failed begin)

abbrev pub owned_by : ℤ → KeyRow → Bool
owned_by user_id row = or_default row.user_id false (λ u. eqb_ℤ u user_id)

abbrev pub is_users : ℤ → ℤ → KeyRow → Bool
is_users user_id id row = has_id id row && owned_by user_id row

-- One `UPDATE` of the row with an id that a user owns, and the reading after it.
unfoldable pub change_user_key :
    Given → Session → Tables → ℤ → ℤ → (KeyRow → KeyRow) → Tables × KeyResult
unfolding checks_row find get_client_api_key_by_id
change_user_key given session t user_id id f =
    if session.runs write_key
    then elim (find (is_users user_id id) t.keys) [
      | none ↦ (t, no_rows)
      | some row ↦
          if checks_row (f row)
          then (let t' = record t { keys = change_rows (is_users user_id id) f t.keys } in
              (t', get_client_api_key_by_id given session t' (pos row.id)))
          else (t, failed write_key)
    ]
    else (t, failed write_key)

abbrev pub disabled_row : KeyRow → KeyRow
disabled_row row = record row { status = codes "disabled" }

unfoldable pub disable_user_client_api_key : Given → Session → Tables → ℤ → ℤ → Tables × KeyResult
unfolding change_user_key
disable_user_client_api_key given session t user_id id =
    change_user_key given session t user_id id disabled_row

unfoldable pub rename_user_client_api_key :
    Given → Session → Tables → ℤ → ℤ → Text → Tables × KeyResult
unfolding change_user_key
rename_user_client_api_key given session t user_id id name =
    change_user_key given session t user_id id (λ row. record row { name = name })

unfoldable pub get_user_client_api_key_by_id : Given → Session → Tables → ℤ → ℤ → KeyResult
unfolding get_client_api_key_by_id
get_user_client_api_key_by_id given session t user_id id =
    elim (get_client_api_key_by_id given session t id) [
      | found item ↦ if eqb_ℤ item.user_id user_id then found item else no_rows
      | failed stage ↦ failed stage
      | no_rows ↦ no_rows
    ]

-- A user's keys, the newest first; `none` is a query that fails.
unfoldable pub list_user_client_api_keys : Given → Session → Tables → ℤ → Option (List ClientApiKey)
unfolding scan_client_api_key sort_by sum_spent
list_user_client_api_keys given session t user_id =
    if session.runs list_keys
    then some (
        map
          (λ row.
            scan_client_api_key given session t row (sum_spent row.id (λ created. true) t.spent))
          (sort_by (λ a b. leb b.id a.id) (filter (owned_by user_id) t.keys)))
    else none
