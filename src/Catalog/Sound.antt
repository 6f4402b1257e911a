-- ===== src/Catalog/Sound.antt =====
-- What the prices of a routed model are, whatever forms were sent
-- (backend/internal/api/admin/handler.go; backend/internal/repository/postgres/store.go).
use wcs_transfer.Base.{
  ◌≡◌, Bool, true, false, ◌&&◌, ◌||◌, Option, none, some, List, [], ◌∷◌, ℤ, pos, Text, codes,
  is_empty,
}
use wcs_transfer.Entity.{ModelRoute}
use wcs_transfer.Checks
use wcs_transfer.Catalog.{
  ProviderRow, ProviderKeyRow, ModelRow, Catalog, CatalogStage, resolve_model_route,
}
use wcs_transfer.Catalog.Writes.{
  Stored, create_provider, update_provider, create_provider_key, update_provider_key, create_model,
  update_model,
}
use wcs_transfer.Console.{acted, parse_form_id, FormAnswer, AdminAction, with_form}
use wcs_transfer.Catalog.Writes.Forms.{
  Form, save_provider, save_key, save_model, provider_input, key_input, model_input,
  provider_missing, key_missing, model_missing, KeyForm, ModelForm, ProviderForm, submit,
  creates_provider, updates_provider, creates_provider_key, updates_provider_key, creates_model,
  updates_model, after_form, after_forms, create_model_form, update_model_form,
  create_provider_form, update_provider_form, create_provider_key_form, update_provider_key_form,
}
use wcs_transfer.Catalog.Members.{All-at}
use wcs_transfer.Catalog.Routes.{resolve_model_route-IsRoute}
use wcs_transfer.Catalog.Priced.{
  IsPriced, AllPriced, create_provider-AllPriced, create_provider_key-AllPriced,
  create_model-AllPriced, update_provider-AllPriced, update_provider_key-AllPriced,
  update_model-AllPriced,
}

submit-AllPriced :
    {A : Type 0} (c : Catalog) (lacking : Bool) (action_of : A → AdminAction)
    (r : Catalog × Stored A)
    → AllPriced c
    → AllPriced r.0
    → AllPriced (submit c lacking action_of r).0
submit-AllPriced c false action_of (c', result) h k = k
submit-AllPriced c true action_of (c', result) h k = h

with_form-AllPriced :
    {F A : Type 0} (has_store : Bool) (c : Catalog) (id : Option ℤ) (body : Option F)
    (rest : ℤ → F → Catalog × FormAnswer A)
    → AllPriced c
    → ((i : ℤ) (form : F) → AllPriced (rest i form).0)
    → AllPriced (with_form has_store c id body rest).0
with_form-AllPriced false c id body rest h k = h
with_form-AllPriced true c none body rest h k = h
with_form-AllPriced true c (some i) none rest h k = h
with_form-AllPriced true c (some i) (some form) rest h k = k i form

module _ (c : Catalog) (h : AllPriced c) (action : Text) where
  save_provider-AllPriced :
      (op : ProviderRow → Catalog × Stored ProviderRow)
      → ((row : ProviderRow) → AllPriced (op row).0)
      → (valid : Text → Bool) (i : ℤ) (form : ProviderForm)
      → AllPriced (save_provider c action op valid i form).0
  save_provider-AllPriced op k valid i form =
      let row = provider_input valid i form in
      submit-AllPriced c (provider_missing row) (λ p. acted action p.id p.name) (op row) h (k row)

  save_key-AllPriced :
      (op : ProviderKeyRow → Catalog × Stored ProviderKeyRow)
      → ((row : ProviderKeyRow) → AllPriced (op row).0)
      → (needs_secret : Bool) (i : ℤ) (form : KeyForm)
      → AllPriced (save_key c action op needs_secret i form).0
  save_key-AllPriced op k needs_secret i form =
      let row = key_input i form in
      submit-AllPriced c (key_missing row || (needs_secret && is_empty row.api_key))
        (λ r. acted action r.id r.name) (op row) h (k row)

  save_model-AllPriced :
      (op : ModelRow → Catalog × Stored ModelRow)
      → ((row : ModelRow) → AllPriced (op row).0)
      → (i : ℤ) (form : ModelForm) → AllPriced (save_model c action op i form).0
  save_model-AllPriced op k i form =
      let row = model_input i form in
      submit-AllPriced c (model_missing row) (λ m. acted action m.id m.model.public_name) (op row) h
        (k row)

module _ (has_store : Bool) (valid : Text → Bool) where
  after_form-AllPriced :
      (runs : CatalogStage → Bool) (c : Catalog) (form : Form)
      → AllPriced c
      → AllPriced (after_form has_store valid runs c form)
  unfolding after_form create_provider_form update_provider_form create_provider_key_form
      update_provider_key_form create_model_form update_model_form
  after_form-AllPriced runs c (creates_provider body) h =
      let name = codes "provider.create" in
      with_form-AllPriced has_store c (some (pos 0)) body
        (save_provider c name (create_provider runs c) valid) h
        (save_provider-AllPriced c h name (create_provider runs c)
          (create_provider-AllPriced runs c h) valid)
  after_form-AllPriced runs c (updates_provider id body) h =
      let name = codes "provider.update" in
      with_form-AllPriced has_store c (parse_form_id id) body
        (save_provider c name (update_provider runs c) valid) h
        (save_provider-AllPriced c h name (update_provider runs c)
          (update_provider-AllPriced runs c h) valid)
  after_form-AllPriced runs c (creates_provider_key body) h =
      let name = codes "provider_key.create" in
      with_form-AllPriced has_store c (some (pos 0)) body
        (save_key c name (create_provider_key runs c) true) h
        (save_key-AllPriced c h name (create_provider_key runs c)
          (create_provider_key-AllPriced runs c h) true)
  after_form-AllPriced runs c (updates_provider_key id body) h =
      let name = codes "provider_key.update" in
      with_form-AllPriced has_store c (parse_form_id id) body
        (save_key c name (update_provider_key runs c) false) h
        (save_key-AllPriced c h name (update_provider_key runs c)
          (update_provider_key-AllPriced runs c h) false)
  after_form-AllPriced runs c (creates_model body) h =
      let name = codes "model.create" in
      with_form-AllPriced has_store c (some (pos 0)) body (save_model c name (create_model runs c))
        h (save_model-AllPriced c h name (create_model runs c) (create_model-AllPriced runs c h))
  after_form-AllPriced runs c (updates_model id body) h =
      let name = codes "model.update" in
      with_form-AllPriced has_store c (parse_form_id id) body
        (save_model c name (update_model runs c)) h
        (save_model-AllPriced c h name (update_model runs c) (update_model-AllPriced runs c h))

  pub after_forms-AllPriced :
      (c : Catalog) (forms : List ((CatalogStage → Bool) × Form))
      → AllPriced c
      → AllPriced (after_forms has_store valid c forms)
  after_forms-AllPriced c [] h = h
  after_forms-AllPriced c ((runs, form) ∷ forms) h =
      after_forms-AllPriced (after_form has_store valid runs c form) forms
        (after_form-AllPriced runs c form h)

-- Whatever forms for providers, keys and models an administrator sends, in any order and with any
-- failures of the database, the model that a name is then routed to has a positive multiplier and
-- time limit, and no negative price, smallest reserve or limit of tokens; if this was so of the
-- models at first.
pub routed-IsPriced :
    (has_store : Bool) (valid : Text → Bool) (c : Catalog)
    (forms : List ((CatalogStage → Bool) × Form)) (runs : CatalogStage → Bool) (public_name : Text)
    (route : ModelRoute)
    → AllPriced c
    → resolve_model_route runs (after_forms has_store valid c forms) public_name
      ≡ Checks.found route
    → IsPriced route.model
routed-IsPriced has_store valid c forms runs public_name route h e =
    let c' = after_forms has_store valid c forms in
    let ((row, at, named, enabled, same, owned), provider, keys) =
      resolve_model_route-IsRoute runs c' public_name route e in
    rw (← same) (
      All-at (λ r. IsPriced r.model) c'.models row (after_forms-AllPriced has_store valid c forms h)
        at)
