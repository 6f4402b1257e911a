-- ===== src/Catalog/Writes/Forms/Inputs.antt =====
-- The forms for providers, their keys and models, and the rows they ask for
-- (backend/internal/api/admin/handler.go).
use wcs_transfer.Base.{
  not, ◌||◌, is_positive, codes, is_empty, if◌then◌else◌, Bool, true, ◌&&◌, Option, [], ℤ, pos,
  Text, text_eq, trim_space,
}
use wcs_transfer.Entity.{Model}
use wcs_transfer.ClientKeys.{or_default}
use wcs_transfer.Console.{default_string}
use wcs_transfer.Catalog.{ProviderRow, ProviderKeyRow, ModelRow}

abbrev pub default_positive : ℤ → ℤ → ℤ
default_positive value fallback = if is_positive value then value else fallback

-- `normalizeJSON`, with `json.Valid` as an argument.
abbrev pub normalize_json : (Text → Bool) → Text → Text
normalize_json valid input =
    let trimmed = trim_space input in
    if is_empty trimmed || not (valid trimmed) then codes "{}" else trimmed

pub record ProviderForm : Type 0 where
  pub name : Text
  pub slug : Text
  pub provider_type : Text
  pub base_url : Text
  pub status : Text
  pub description : Text
  pub extra_config : Text

-- `api_key` may be missing from an update only.
pub record KeyForm : Type 0 where
  pub provider_id : ℤ
  pub name : Text
  pub api_key : Option Text
  pub status : Text
  pub weight : Option ℤ
  pub priority : Option ℤ
  pub rpm_limit : ℤ
  pub tpm_limit : ℤ

-- `model` has the fields that have no default: names, strategy, limits and prices.
pub record ModelForm : Type 0 where
  pub provider_id : ℤ
  pub model : Model
  pub is_enabled : Option Bool
  pub timeout_seconds : Option ℤ

abbrev pub provider_input : (Text → Bool) → ℤ → ProviderForm → ProviderRow
provider_input valid id form = record {
  id = id;
  name = trim_space form.name;
  slug = trim_space form.slug;
  provider_type = default_string form.provider_type (codes "openai_compatible");
  base_url = trim_space form.base_url;
  status = default_string form.status (codes "active");
  description = trim_space form.description;
  extra_config = normalize_json valid form.extra_config;
}

abbrev pub key_input : ℤ → KeyForm → ProviderKeyRow
key_input id form = record {
  id = id;
  provider_id = form.provider_id;
  name = trim_space form.name;
  api_key = or_default form.api_key [] trim_space;
  status = default_string form.status (codes "active");
  weight = or_default form.weight (pos 100) (λ w. w);
  priority = or_default form.priority (pos 100) (λ p. p);
  rpm_limit = form.rpm_limit;
  tpm_limit = form.tpm_limit;
}

-- A multiplier of 1 is 10000 units.
abbrev pub model_input : ℤ → ModelForm → ModelRow
model_input id form = record {
  id = id;
  provider_id = form.provider_id;
  is_enabled = or_default form.is_enabled true (λ b. b);
  model = record (form.model) {
    public_name = trim_space form.model.public_name;
    upstream_model = trim_space form.model.upstream_model;
    route_strategy = default_string form.model.route_strategy (codes "fixed");
    timeout_seconds = or_default form.timeout_seconds (pos 120) (λ s. s);
    reserve_multiplier = default_positive form.model.reserve_multiplier (pos 10000);
  };
}

abbrev pub provider_missing : ProviderRow → Bool
provider_missing row =
    is_empty row.name
    || is_empty row.slug
    || (is_empty row.base_url && not (text_eq row.provider_type (codes "vertexai")))

abbrev pub key_missing : ProviderKeyRow → Bool
key_missing row = not (is_positive row.provider_id) || is_empty row.name

abbrev pub model_missing : ModelRow → Bool
model_missing row =
    is_empty row.model.public_name
    || not (is_positive row.provider_id)
    || is_empty row.model.upstream_model
