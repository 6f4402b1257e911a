-- ===== src/Catalog/Writes/Forms.antt =====
-- The forms of the console for providers, their keys and models
-- (backend/internal/api/admin/handler.go: `CreateProvider` to `UpdateModel`, `writeDatabaseError` and
-- the defaults of fields).
mod Inputs
unfoldable pub use Inputs.*
use wcs_transfer.Base.{
  ℕ, Bool, true, false, ◌&&◌, ◌||◌, Option, some, List, [], ◌∷◌, if◌then◌else◌, ℤ, pos, Text, codes,
  is_empty,
}
use wcs_transfer.Portal.Debug.{code_invalid_param, code_internal_error}
use wcs_transfer.Console.{AdminAction, FormAnswer, error, saved, parse_form_id, acted, with_form}
use wcs_transfer.Catalog.{ProviderRow, ProviderKeyRow, ModelRow, Catalog, CatalogStage}
use wcs_transfer.Catalog.Writes.{
  Refusal, too_long, violates_check, already_exists, missing_reference, Stored, stored, refused,
  invalid_input, statement_failed, no_such_row, create_provider, update_provider,
  create_provider_key, update_provider_key, create_model, update_model,
}

abbrev code_conflict : ℕ
code_conflict = 2003

-- `writeDatabaseError`, of a refusal.
unfoldable pub refusal_code : Refusal → ℕ
refusal_code already_exists = code_conflict
refusal_code missing_reference = code_invalid_param
refusal_code violates_check = code_invalid_param
refusal_code too_long = code_internal_error

abbrev pub answer : {A : Type 0} → (A → AdminAction) → Stored A → FormAnswer A
answer action_of (stored row) = saved row (action_of row)
answer action_of (refused refusal) = error (refusal_code refusal)
answer action_of (invalid_input message) = error code_internal_error
answer action_of statement_failed = error code_internal_error
answer action_of no_such_row = error code_internal_error

-- A row of the form that lacks nothing is stored and the action recorded.
abbrev pub submit : {D A : Type 0} → D → Bool → (A → AdminAction) → D × Stored A → D × FormAnswer A
submit c lacking action_of (c', result) =
    if lacking then (c, error code_invalid_param) else (c', answer action_of result)

-- The part of the handlers after the guards; the operation is the store's creation or update.
abbrev pub save_provider :
    Catalog
    → Text
    → (ProviderRow → Catalog × Stored ProviderRow)
    → (Text → Bool)
    → ℤ
    → ProviderForm
    → Catalog × FormAnswer ProviderRow
save_provider c action operation valid id form =
    let row = provider_input valid id form in
    submit c (provider_missing row) (λ p. acted action p.id p.name) (operation row)

-- A creation needs a secret.
abbrev pub save_key :
    Catalog
    → Text
    → (ProviderKeyRow → Catalog × Stored ProviderKeyRow)
    → Bool
    → ℤ
    → KeyForm
    → Catalog × FormAnswer ProviderKeyRow
save_key c action operation needs_secret id form =
    let row = key_input id form in
    submit c (key_missing row || (needs_secret && is_empty row.api_key))
      (λ k. acted action k.id k.name) (operation row)

abbrev pub save_model :
    Catalog
    → Text
    → (ModelRow → Catalog × Stored ModelRow)
    → ℤ
    → ModelForm
    → Catalog × FormAnswer ModelRow
save_model c action operation id form =
    let row = model_input id form in
    submit c (model_missing row) (λ m. acted action m.id m.model.public_name) (operation row)

module _ (has_store : Bool) (valid : Text → Bool) (runs : CatalogStage → Bool) (c : Catalog) where
  unfoldable pub create_provider_form : Option ProviderForm → Catalog × FormAnswer ProviderRow
  unfolding create_provider
  create_provider_form body =
      with_form has_store c (some (pos 0)) body
        (save_provider c (codes "provider.create") (create_provider runs c) valid)

  unfoldable pub update_provider_form :
      Text → Option ProviderForm → Catalog × FormAnswer ProviderRow
  unfolding update_provider parse_form_id
  update_provider_form param body =
      with_form has_store c (parse_form_id param) body
        (save_provider c (codes "provider.update") (update_provider runs c) valid)

  unfoldable pub create_provider_key_form : Option KeyForm → Catalog × FormAnswer ProviderKeyRow
  unfolding create_provider_key
  create_provider_key_form body =
      with_form has_store c (some (pos 0)) body
        (save_key c (codes "provider_key.create") (create_provider_key runs c) true)

  unfoldable pub update_provider_key_form :
      Text → Option KeyForm → Catalog × FormAnswer ProviderKeyRow
  unfolding update_provider_key parse_form_id
  update_provider_key_form param body =
      with_form has_store c (parse_form_id param) body
        (save_key c (codes "provider_key.update") (update_provider_key runs c) false)

  unfoldable pub create_model_form : Option ModelForm → Catalog × FormAnswer ModelRow
  unfolding create_model
  create_model_form body =
      with_form has_store c (some (pos 0)) body
        (save_model c (codes "model.create") (create_model runs c))

  unfoldable pub update_model_form : Text → Option ModelForm → Catalog × FormAnswer ModelRow
  unfolding update_model parse_form_id
  update_model_form param body =
      with_form has_store c (parse_form_id param) body
        (save_model c (codes "model.update") (update_model runs c))

pub data Form : Type 0 where
  creates_provider : Option ProviderForm → Form
  updates_provider : Text → Option ProviderForm → Form
  creates_provider_key : Option KeyForm → Form
  updates_provider_key : Text → Option KeyForm → Form
  creates_model : Option ModelForm → Form
  updates_model : Text → Option ModelForm → Form

-- The catalog after a form was sent.
unfoldable pub after_form : Bool → (Text → Bool) → (CatalogStage → Bool) → Catalog → Form → Catalog
unfolding create_provider_form update_provider_form create_provider_key_form
    update_provider_key_form create_model_form update_model_form
after_form has_store valid runs c (creates_provider body) =
    (create_provider_form has_store valid runs c body).0
after_form has_store valid runs c (updates_provider id body) =
    (update_provider_form has_store valid runs c id body).0
after_form has_store valid runs c (creates_provider_key body) =
    (create_provider_key_form has_store valid runs c body).0
after_form has_store valid runs c (updates_provider_key id body) =
    (update_provider_key_form has_store valid runs c id body).0
after_form has_store valid runs c (creates_model body) =
    (create_model_form has_store valid runs c body).0
after_form has_store valid runs c (updates_model id body) =
    (update_model_form has_store valid runs c id body).0

-- Forms that are sent one after the other; which statements run may differ from one to the next.
abbrev pub after_forms :
    Bool → (Text → Bool) → Catalog → List ((CatalogStage → Bool) × Form) → Catalog
after_forms has_store valid c [] = c
after_forms has_store valid c ((runs, form) ∷ forms) =
    after_forms has_store valid (after_form has_store valid runs c form) forms
