-- ===== src/Catalog/Routes.antt =====
-- What a model name is routed to (backend/internal/repository/postgres/store.go:
-- `ResolveModelRoute`, `listActiveProviderKeys`).
use wcs_transfer.Base.{
  ◌≡◌, refl, sym, inl, inr, Bool, Bool-cases, true, ◌&&◌, some, Option-cases, List, [], ◌∷◌, arith,
  All, map, filter, ℤ, eqb_ℤ, eqb_ℤ_iff, Text, codes, text_eq_iff,
}
use wcs_transfer.Entity.{ProviderKey, ModelRoute}
use wcs_transfer.Checks
use wcs_transfer.ClientKeys.{find, sort_by}
use wcs_transfer.Catalog.{
  ProviderRow, ProviderKeyRow, ModelRow, Catalog, CatalogStage, query_model, is_active, key_item,
  key_before, is_usable, list_active_provider_keys, active_provider, serves, provider_item,
  resolve_model_route,
}
use wcs_transfer.Catalog.Members.{All-In, All-filter, All-sort_by, In, find-In}

-- A key that comes from an active row of a provider.
abbrev pub IsActiveKey : Catalog → ℤ → ProviderKey → Type 0
IsActiveKey c provider_id key =
    (row : ProviderKeyRow) × In row c.keys
    × (row.status ≡ codes "active")
    × (row.provider_id ≡ provider_id)
    × (key ≡ key_item row)

All-key_item :
    (c : Catalog) (provider_id : ℤ) (rows : List ProviderKeyRow)
    → All (λ row. In row c.keys × (is_usable provider_id row ≡ true)) rows
    → All (IsActiveKey c provider_id) (map key_item rows)
All-key_item c provider_id [] h = tt
All-key_item c provider_id (row ∷ rows) ((at, usable), h) = (
  (
    row,
    at,
    (text_eq_iff row.status (codes "active")).0 (ground (arith, usable)),
    (eqb_ℤ_iff row.provider_id provider_id).0 (ground (arith, usable)),
    refl,
  ),
  All-key_item c provider_id rows h,
)

-- The route of an enabled model with the name, of its active provider, with keys that are active and
-- the provider's own.
abbrev pub IsRoute : Catalog → Text → ModelRoute → Type 0
IsRoute c public_name route =
    ((row : ModelRow) × In row c.models
      × (row.model.public_name ≡ public_name)
      × (row.is_enabled ≡ true)
      × (row.model ≡ route.model)
      × (row.provider_id ≡ route.provider.id))
    × ((p : ProviderRow) × In p c.providers
        × (p.status ≡ codes "active")
        × (provider_item p ≡ route.provider))
    × All (IsActiveKey c route.provider.id) route.keys

module _ (runs : CatalogStage → Bool) (c : Catalog) where
  list_active-IsActiveKey :
      (provider_id : ℤ) (keys : List ProviderKey)
      → list_active_provider_keys runs c provider_id ≡ some keys
      → All (IsActiveKey c provider_id) keys
  unfolding list_active_provider_keys
  list_active-IsActiveKey provider_id keys e =
      let rows = filter (is_usable provider_id) c.keys in
      let usable =
        All-filter (is_usable provider_id) (λ row. In row c.keys) c.keys (All-In c.keys) in
      let sorted =
        All-sort_by (λ row. In row c.keys × (is_usable provider_id row ≡ true)) key_before rows
          usable in
      let is_keys : map key_item (sort_by key_before rows) ≡ keys = ground (arith, e) in
      rw (← is_keys) (All-key_item c provider_id (sort_by key_before rows) sorted)

  assembled :
      (public_name : Text) (row : ModelRow) (p : ProviderRow) (keys : List ProviderKey)
      → find (serves c public_name) c.models ≡ some row
      → active_provider c row ≡ some p
      → list_active_provider_keys runs c p.id ≡ some keys
      → IsRoute c public_name
          (record { model = row.model; provider = provider_item p; keys = keys })
  unfolding active_provider
  assembled public_name row p keys m a k =
      let (at, serving) = find-In (serves c public_name) c.models row m in
      let (known, active) =
        find-In (λ q. eqb_ℤ q.id row.provider_id && is_active q.status) c.providers p a in
      (
        (
          row,
          at,
          (text_eq_iff row.model.public_name public_name).0 (ground (arith, serving)),
          ground (arith, serving),
          refl,
          sym ((eqb_ℤ_iff p.id row.provider_id).0 (ground (arith, active))),
        ),
        (p, known, (text_eq_iff p.status (codes "active")).0 (ground (arith, active)), refl),
        list_active-IsActiveKey p.id keys k,
      )

  -- A name is only routed to an enabled model with that name, to its active provider, and to keys
  -- of that provider that are active.
  pub resolve_model_route-IsRoute :
      (public_name : Text) (route : ModelRoute)
      → resolve_model_route runs c public_name ≡ Checks.found route
      → IsRoute c public_name route
  unfolding resolve_model_route active_provider
  resolve_model_route-IsRoute public_name route e = elim (Bool-cases (runs query_model)) [
    | inr r ↦ absurd (ground (arith, e, r))
    | inl r ↦ elim (Option-cases (find (serves c public_name) c.models)) [
      | inl m ↦ absurd (ground (arith, e, r, m))
      | inr (row, m) ↦ elim (Option-cases (active_provider c row)) [
        | inl a ↦ absurd (ground (arith, e, r, m, a))
        | inr (p, a) ↦ elim (Option-cases (list_active_provider_keys runs c p.id)) [
          | inl k ↦ absurd (ground (arith, e, r, m, a, k))
          | inr (keys, k) ↦
              let is_route : record { model = row.model; provider = provider_item p; keys = keys }
                  ≡ route =
                ground (arith, e, r, m, a, k) in
              rw (← is_route) (assembled public_name row p keys m a k)
        ]
      ]
    ]
  ]
