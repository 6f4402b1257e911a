-- ===== src/Catalog/Listing.antt =====
-- The list of models that a client gets (backend/internal/api/openai/handler.go: `ListModels`, over
-- `ListEnabledModels` of backend/internal/repository/postgres/store.go). An item is its id; its
-- owner and time of creation are left out, and so is the message of a database error.
use wcs_transfer.Base.{
  ◌≡◌, ap, ◌∙◌, ◌↔◌, inl, inr, Bool, true, Option, none, some, Option-cases, List, [], arith,
  if◌then◌else◌, map, filter, Text, text_eq_iff,
}
use wcs_transfer.Entity.{Model, ModelRoute, ClientApiKey}
use wcs_transfer.Access.{client_key_allows_model}
use wcs_transfer.Checks
use wcs_transfer.ClientKeys.{find, sort_by, or_default}
use wcs_transfer.Catalog.{
  ModelRow, Catalog, CatalogStage, query_model, query_keys, list_active_provider_keys,
  active_provider, serves, provider_item, resolve_model_route, list_enabled_models,
}
use wcs_transfer.Catalog.Members.{
  In, In-filter, In-find, In-map, In-sort_by, filter-In, find-In, map-In, sort_by-In,
}

pub data ModelsAnswer : Type 0 where
  model_list : List Text → ModelsAnswer
  database_failure : ModelsAnswer

-- A caller without a client key sees every model.
abbrev pub may_see : Option ClientApiKey → Text → Bool
may_see client_key name = or_default client_key true (λ k. client_key_allows_model k name)

unfoldable pub model_items : Option ClientApiKey → List Model → List Text
model_items client_key models =
    filter (may_see client_key) (map (λ model. model.public_name) models)

unfoldable pub list_models :
    Bool
    → (CatalogStage → Bool)
    → (Text → Text → Bool)
    → Catalog
    → Option ClientApiKey
    → ModelsAnswer
unfolding model_items list_enabled_models
list_models has_store runs before c client_key =
    if has_store
    then elim (list_enabled_models runs before c) [
      | none ↦ database_failure
      | some models ↦ model_list (model_items client_key models)
    ]
    else model_list []

abbrev in_use : Catalog → ModelRow → Bool
in_use c row = serves c row.model.public_name row

abbrev rows_listed : (Text → Text → Bool) → Catalog → List ModelRow
rows_listed before c =
    sort_by (λ a b. before a.model.public_name b.model.public_name) (filter (in_use c) c.models)

names_listed : (Text → Text → Bool) → Catalog → List Text
names_listed before c =
    map (λ model. model.public_name) (map (λ row. row.model) (rows_listed before c))

module _ (c : Catalog) (name : Text) where
  listed→served :
      (before : Text → Text → Bool)
      → In name (names_listed before c)
      → (row : ModelRow) × (find (serves c name) c.models ≡ some row)
  unfolding names_listed
  listed→served before h =
      let (model, at, e) =
        map-In (λ (m : Model). m.public_name) name (map (λ row. row.model) (rows_listed before c))
          h in
      let (row, at', e') = map-In (λ (r : ModelRow). r.model) model (rows_listed before c) at in
      let sorted =
        sort_by-In (λ a b. before a.model.public_name b.model.public_name) row
          (filter (in_use c) c.models) at' in
      let (at'', used) = filter-In (in_use c) row c.models sorted in
      let e'' : name ≡ row.model.public_name = rw (← e') e in
      In-find (serves c name) row c.models at'' (ap (λ n. serves c n row) e'' ∙ used)

  served→listed :
      (before : Text → Text → Bool) (row : ModelRow)
      → find (serves c name) c.models ≡ some row
      → In name (names_listed before c)
  unfolding names_listed
  served→listed before row m =
      let (at, serving) = find-In (serves c name) c.models row m in
      let e : row.model.public_name ≡ name =
        (text_eq_iff row.model.public_name name).0 (ground (arith, serving)) in
      let kept = In-filter (in_use c) row c.models at (ap (λ n. serves c n row) e ∙ serving) in
      let sorted =
        In-sort_by (λ a b. before a.model.public_name b.model.public_name) row
          (filter (in_use c) c.models) kept in
      let item = In-map (λ (r : ModelRow). r.model) row (rows_listed before c) sorted in
      rw (← e) (
        In-map (λ (m : Model). m.public_name) row.model (map (λ r. r.model) (rows_listed before c))
          item)

  module _ (runs : CatalogStage → Bool) (model_runs : runs query_model ≡ true) where
    served→routed :
        (row : ModelRow)
        → runs query_keys ≡ true
        → find (serves c name) c.models ≡ some row
        → (route : ModelRoute) × (resolve_model_route runs c name ≡ Checks.found route)
    unfolding resolve_model_route list_active_provider_keys
    served→routed row keys_run m = elim (Option-cases (active_provider c row)) [
      | inl a ↦
          let (at, serving) = find-In (serves c name) c.models row m in
          absurd (ground (arith, serving, a))
      | inr (p, a) ↦ elim (Option-cases (list_active_provider_keys runs c p.id)) [
        | inl k ↦ absurd (ground (arith, k, keys_run))
        | inr (keys, k) ↦ (
          record { model = row.model; provider = provider_item p; keys = keys },
          ground (arith, m, a, k, model_runs),
        )
      ]
    ]

    routed→served :
        (route : ModelRoute)
        → resolve_model_route runs c name ≡ Checks.found route
        → (row : ModelRow) × (find (serves c name) c.models ≡ some row)
    unfolding resolve_model_route
    routed→served route e = elim (Option-cases (find (serves c name) c.models)) [
      | inl n ↦ absurd (ground (arith, e, n, model_runs))
      | inr found_row ↦ found_row
    ]

module _ (runs : CatalogStage → Bool) (before : Text → Text → Bool) (c : Catalog)
    (client_key : Option ClientApiKey) where
  list_models-names :
      (names : List Text)
      → list_models true runs before c client_key ≡ model_list names
      → filter (may_see client_key) (names_listed before c) ≡ names
  unfolding list_models names_listed
  list_models-names names e = ground (arith, e)

  -- Where the statements for a model and its keys run, the list shows a client exactly the names
  -- that are routed and that its key, if it has one, may use.
  pub list_models-routed :
      (names : List Text) (name : Text)
      → runs query_model ≡ true
      → runs query_keys ≡ true
      → list_models true runs before c client_key ≡ model_list names
      → In name names ↔ (
          ((route : ModelRoute) × (resolve_model_route runs c name ≡ Checks.found route))
          × (may_see client_key name ≡ true))
  list_models-routed names name model_runs keys_run e = (
    λ h.
        let (listed, seen) =
          filter-In (may_see client_key) name (names_listed before c)
            (rw (list_models-names names e) h) in
        let (row, served) = listed→served c name before listed in
        (served→routed c name runs model_runs row keys_run served, seen),
    λ h.
        let ((route, routed), seen) = h in
        let (row, served) = routed→served c name runs model_runs route routed in
        rw (← list_models-names names e) (
          In-filter (may_see client_key) name (names_listed before c)
            (served→listed c name before row served) seen),
  )
