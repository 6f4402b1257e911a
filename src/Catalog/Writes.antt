-- ===== src/Catalog/Writes.antt =====
-- The writes to providers, their keys and models (backend/internal/repository/postgres/store.go:
-- `CreateProvider` to `UpdateModel`), each one statement, with the constraints of
-- backend/migrations in the order in which PostgreSQL checks them. The text of `extra_config` is
-- kept as it is given.
use wcs_transfer.Base.{
  suc, Bool, true, false, not, ◌&&◌, ◌||◌, Option, none, some, List, [], ◌∷◌, ◌++◌, if◌then◌else◌,
  map, length, leb, ℤ, pos, leb_ℤ, eqb_ℤ, is_positive, Text, codes, text_eq, is_empty,
}
use wcs_transfer.Entity.{Model}
use wcs_transfer.ClientKeys.{find, or_default}
use wcs_transfer.Catalog.{
  ProviderRow, ProviderKeyRow, ModelRow, Catalog, CatalogStage, write_row, read_provider_name,
}
pub mod Forms

pub data Refusal : Type 0 where
  too_long violates_check already_exists missing_reference : Refusal

pub data Stored (A : Type 0) : Type 0 where
  stored : A → Stored A
  refused : Refusal → Stored A
  invalid_input : Text → Stored A
  statement_failed no_such_row : Stored A

-- The first of the constraints that a row breaks: the lengths of its texts, its checks, its unique
-- columns, its reference.
abbrev pub judge : Bool → Bool → Bool → Bool → Option Refusal
judge lengths checks is_unique has_reference =
    if not lengths
    then some too_long
    else (if not checks
        then some violates_check
        else (if not is_unique
            then some already_exists
            else (if has_reference then none else some missing_reference)))

abbrev pub one_of : Text → List Text → Bool
one_of s [] = false
one_of s (t ∷ ts) = text_eq s t || one_of s ts

abbrev nonnegative : ℤ → Bool
nonnegative n = leb_ℤ (pos 0) n

-- Whether a row of another id passes the test.
unfoldable pub has_other : {R : Type 0} → (R → ℤ) → ℤ → (R → Bool) → List R → Bool
has_other id_of id p [] = false
has_other id_of id p (row ∷ rows) =
    (not (eqb_ℤ (id_of row) id) && p row) || has_other id_of id p rows

abbrev pub provider_exists : Catalog → ℤ → Bool
provider_exists c provider_id =
    or_default (find (λ p. eqb_ℤ p.id provider_id) c.providers) false (λ p. true)

abbrev provider_types : List Text
provider_types =
    codes "openai_compatible"
    ∷ codes "openai"
    ∷ codes "azure_openai"
    ∷ codes "custom"
    ∷ codes "anthropic"
    ∷ codes "gemini"
    ∷ codes "vertexai"
    ∷ []

unfoldable pub judge_provider : Catalog → ProviderRow → Option Refusal
unfolding has_other
judge_provider c row =
    judge
      (leb (length row.name) 128
        && leb (length row.slug) 64
        && leb (length row.provider_type) 32
        && leb (length row.status) 16)
      (one_of row.status (codes "active" ∷ codes "disabled" ∷ [])
        && one_of row.provider_type provider_types)
      (not (has_other (λ p. p.id) row.id (λ p. text_eq p.slug row.slug) c.providers)) true

abbrev pub checks_key : ProviderKeyRow → Bool
checks_key row =
    one_of row.status
      (codes "active" ∷ codes "disabled" ∷ codes "rate_limited" ∷ codes "invalid" ∷ [])
    && nonnegative row.weight
    && nonnegative row.priority
    && nonnegative row.rpm_limit
    && nonnegative row.tpm_limit

unfoldable pub judge_key : Catalog → ProviderKeyRow → Option Refusal
unfolding has_other find
judge_key c row =
    judge (leb (length row.name) 128 && leb (length row.status) 16) (checks_key row)
      (not (
        has_other (λ k. k.id) row.id
          (λ k. eqb_ℤ k.provider_id row.provider_id && text_eq k.name row.name) c.keys))
      (provider_exists c row.provider_id)

abbrev pub checks_model : Model → Bool
checks_model m =
    one_of m.route_strategy (codes "fixed" ∷ codes "round_robin" ∷ codes "failover" ∷ [])
    && nonnegative m.max_tokens
    && is_positive m.timeout_seconds
    && nonnegative m.cost_input_per_1m
    && nonnegative m.cost_output_per_1m
    && nonnegative m.sale_input_per_1m
    && nonnegative m.sale_output_per_1m
    && is_positive m.reserve_multiplier
    && nonnegative m.reserve_min_amount

unfoldable pub judge_model : Catalog → ModelRow → Option Refusal
unfolding has_other find
judge_model c row =
    judge
      (leb (length row.model.public_name) 128
        && leb (length row.model.upstream_model) 128
        && leb (length row.model.route_strategy) 32)
      (checks_model row.model)
      (not (
        has_other (λ m. m.id) row.id (λ m. text_eq m.model.public_name row.model.public_name)
          c.models))
      (provider_exists c row.provider_id)

-- An `INSERT` or `UPDATE` that is judged, and what follows it; the tables are those without and
-- with the write.
abbrev pub write : {D R : Type 0} → Bool → Option Refusal → D → D → Stored R → D × Stored R
write runs (some refusal) c c' result = if runs then (c, refused refusal) else (c, statement_failed)
write runs none c c' result = if runs then (c', result) else (c, statement_failed)

abbrev pub replace : {R : Type 0} → (R → ℤ) → ℤ → R → List R → List R
replace id_of id row rows = map (λ r. if eqb_ℤ (id_of r) id then row else r) rows

-- The row, after the name of its provider was read.
abbrev pub with_provider_name : {R : Type 0} → (CatalogStage → Bool) → R → Stored R
with_provider_name runs row = if runs read_provider_name then stored row else statement_failed

module _ (runs : CatalogStage → Bool) (c : Catalog) where
  -- The row of the input has any id.
  unfoldable pub create_provider : ProviderRow → Catalog × Stored ProviderRow
  unfolding judge_provider
  create_provider input =
      let row = record input { id = pos c.next_provider } in
      let taken = record c { next_provider = suc c.next_provider } in
      write (runs write_row) (judge_provider c row) taken
        (record taken { providers = c.providers ++ row ∷ [] }) (stored row)

  unfoldable pub update_provider : ProviderRow → Catalog × Stored ProviderRow
  unfolding judge_provider find
  update_provider row = elim (find (λ p. eqb_ℤ p.id row.id) c.providers) [
    | none ↦ write (runs write_row) none c c no_such_row
    | some old ↦
        write (runs write_row) (judge_provider c row) c
          (record c { providers = replace (λ p. p.id) row.id row c.providers }) (stored row)
  ]

  unfoldable pub create_provider_key : ProviderKeyRow → Catalog × Stored ProviderKeyRow
  unfolding judge_key
  create_provider_key input =
      let row = record input { id = pos c.next_key } in
      let taken = record c { next_key = suc c.next_key } in
      write (runs write_row) (judge_key c row) taken (record taken { keys = c.keys ++ row ∷ [] })
        (with_provider_name runs row)

  -- An empty secret leaves the old one.
  unfoldable pub update_provider_key : ProviderKeyRow → Catalog × Stored ProviderKeyRow
  unfolding judge_key find
  update_provider_key input = elim (find (λ k. eqb_ℤ k.id input.id) c.keys) [
    | none ↦ write (runs write_row) none c c no_such_row
    | some old ↦
        let row = record input {
          api_key = if is_empty input.api_key then old.api_key else input.api_key;
        } in
        write (runs write_row) (judge_key c row) c
          (record c { keys = replace (λ k. k.id) input.id row c.keys })
          (with_provider_name runs row)
  ]

  unfoldable pub create_model : ModelRow → Catalog × Stored ModelRow
  unfolding judge_model
  create_model input =
      let row = record input { id = pos c.next_model } in
      let taken = record c { next_model = suc c.next_model } in
      write (runs write_row) (judge_model c row) taken
        (record taken { models = c.models ++ row ∷ [] }) (with_provider_name runs row)

  unfoldable pub update_model : ModelRow → Catalog × Stored ModelRow
  unfolding judge_model find
  update_model row = elim (find (λ m. eqb_ℤ m.id row.id) c.models) [
    | none ↦ write (runs write_row) none c c no_such_row
    | some old ↦
        write (runs write_row) (judge_model c row) c
          (record c { models = replace (λ m. m.id) row.id row c.models })
          (with_provider_name runs row)
  ]
