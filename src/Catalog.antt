-- ===== src/Catalog.antt =====
-- Providers, their keys and the models of the store, and the route of a model
-- (backend/internal/repository/postgres/store.go: `ResolveModelRoute`, `listActiveProviderKeys`,
-- `ListEnabledModels`). The tables are PostgreSQL's, without the columns of times and the counters
-- that the code never writes; the metadata of models is left out.
use wcs_transfer.Base.{
  ℕ, Bool, true, false, ◌&&◌, ◌||◌, Option, none, some, List, [], if◌then◌else◌, map, filter, ℤ,
  ltb_ℤ, eqb_ℤ, Text, codes, text_eq,
}
use wcs_transfer.Entity.{ProviderKey, Model, Provider}
use wcs_transfer.Checks.{Resolved}
use wcs_transfer.Checks
use wcs_transfer.ClientKeys.{find, sort_by}
pub mod Members
pub mod Writes
pub mod Routes
pub mod Listing
pub mod Priced
pub mod Sound
pub mod Withdrawn

pub record ProviderRow : Type 0 where
  pub id : ℤ
  pub name : Text
  pub slug : Text
  pub provider_type : Text
  pub base_url : Text
  pub status : Text
  pub description : Text
  pub extra_config : Text

pub record ProviderKeyRow : Type 0 where
  pub id : ℤ
  pub provider_id : ℤ
  pub name : Text
  pub api_key : Text
  pub status : Text
  pub weight : ℤ
  pub priority : ℤ
  pub rpm_limit : ℤ
  pub tpm_limit : ℤ

pub record ModelRow : Type 0 where
  pub id : ℤ
  pub provider_id : ℤ
  pub is_enabled : Bool
  pub model : Model

-- The numbers are those of the three sequences.
pub record Catalog : Type 0 where
  pub providers : List ProviderRow
  pub keys : List ProviderKeyRow
  pub models : List ModelRow
  pub next_provider : ℕ
  pub next_key : ℕ
  pub next_model : ℕ

pub data CatalogStage : Type 0 where
  write_row read_provider_name query_model query_keys query_models : CatalogStage

abbrev pub is_active : Text → Bool
is_active status = text_eq status (codes "active")

abbrev pub key_item : ProviderKeyRow → ProviderKey
key_item row = record {
  id = row.id;
  name = row.name;
  api_key = row.api_key;
  health_status = [];
  cooldown_reason = [];
  cooldown_until = none;
  weight = row.weight;
  priority = row.priority;
}

-- `ORDER BY priority ASC, weight DESC, id ASC`
abbrev pub key_before : ProviderKeyRow → ProviderKeyRow → Bool
key_before a b =
    ltb_ℤ a.priority b.priority
    || (eqb_ℤ a.priority b.priority
        && (ltb_ℤ b.weight a.weight || (eqb_ℤ a.weight b.weight && ltb_ℤ a.id b.id)))

abbrev pub is_usable : ℤ → ProviderKeyRow → Bool
is_usable provider_id row = eqb_ℤ row.provider_id provider_id && is_active row.status

unfoldable pub list_active_provider_keys :
    (CatalogStage → Bool) → Catalog → ℤ → Option (List ProviderKey)
unfolding sort_by
list_active_provider_keys runs c provider_id =
    if runs query_keys
    then some (map key_item (sort_by key_before (filter (is_usable provider_id) c.keys)))
    else none

-- The join of a model with its provider, where both can be used.
unfoldable pub active_provider : Catalog → ModelRow → Option ProviderRow
unfolding find
active_provider c row = find (λ p. eqb_ℤ p.id row.provider_id && is_active p.status) c.providers

abbrev pub serves : Catalog → Text → ModelRow → Bool
serves c public_name row =
    text_eq row.model.public_name public_name
    && row.is_enabled
    && (elim (active_provider c row) [ none ↦ false | some p ↦ true ])

abbrev pub provider_item : ProviderRow → Provider
provider_item p = record {
  id = p.id;
  slug = p.slug;
  provider_type = p.provider_type;
  base_url = p.base_url;
  extra_config = p.extra_config;
}

unfoldable pub resolve_model_route : (CatalogStage → Bool) → Catalog → Text → Resolved
unfolding active_provider list_active_provider_keys find
resolve_model_route runs c public_name =
    if runs query_model
    then elim (find (serves c public_name) c.models) [
      | none ↦ Checks.no_rows
      | some row ↦ elim (active_provider c row) [
        | none ↦ Checks.no_rows
        | some provider ↦ elim (list_active_provider_keys runs c provider.id) [
          | none ↦ Checks.database_error (codes "query active provider keys")
          | some keys ↦
              Checks.found
                (record { model = row.model; provider = provider_item provider; keys = keys })
        ]
      ]
    ]
    else Checks.database_error (codes "resolve model route")

-- The models that can be used, by name; `before` is the database's order of names.
unfoldable pub list_enabled_models :
    (CatalogStage → Bool) → (Text → Text → Bool) → Catalog → Option (List Model)
unfolding active_provider sort_by
list_enabled_models runs before c =
    if runs query_models
    then some (
        map (λ row. row.model)
          (sort_by (λ a b. before a.model.public_name b.model.public_name)
            (filter (λ row. serves c row.model.public_name row) c.models)))
    else none
