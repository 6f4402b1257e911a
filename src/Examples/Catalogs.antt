-- ===== src/Examples/Catalogs.antt =====
-- Forms of the console for the catalog, at concrete inputs.
use wcs_transfer.Base.{
  ◌≡◌, ◌≢◌, ◌↔◌, refl, true, Bool, leb, length, none, some, List, [], ◌∷◌, pos, Text, codes,
  trim_space, to_lower,
}
use wcs_transfer.Entity.{ModelRoute}
use wcs_transfer.Checks.{Resolved}
use wcs_transfer.Checks
use wcs_transfer.Catalog.{ProviderRow, Catalog, CatalogStage, resolve_model_route}
use wcs_transfer.Console.{error, AdminAction}
use wcs_transfer.Catalog.Writes.Forms.{
  ProviderForm, KeyForm, Form, creates_provider, creates_provider_key, creates_model, after_forms,
  update_provider_form,
}
use wcs_transfer.Catalog.Priced.{IsPriced}
use wcs_transfer.Catalog.Sound.{routed-IsPriced}
use wcs_transfer.Catalog.Routes.{IsRoute, resolve_model_route-IsRoute}
use wcs_transfer.Catalog.Withdrawn.{disabled-unrouted}
use wcs_transfer.Catalog.Members.{In}
use wcs_transfer.Catalog.Listing.{model_list, list_models, may_see, list_models-routed}
use wcs_transfer.Examples.{small_model, two_keys, owner_key}

abbrev all_run : CatalogStage → Bool
all_run stage = true

abbrev nothing : Catalog
nothing = record {
  providers = [];
  keys = [];
  models = [];
  next_provider = 1;
  next_key = 1;
  next_model = 1;
}

abbrev up : ProviderForm
up = record {
  name = codes "Up ";
  slug = codes "up";
  provider_type = codes "openai";
  base_url = codes "http://up";
  status = [];
  description = [];
  extra_config = [];
}

abbrev down : ProviderForm
down = record up { slug = codes "down"; status = codes "disabled" }

abbrev key_form : Text → KeyForm
key_form name = record {
  provider_id = pos 1;
  name = name;
  api_key = some (codes "s");
  status = [];
  weight = none;
  priority = none;
  rpm_limit = pos 0;
  tpm_limit = pos 0;
}

-- Two providers, a key that is sent twice, and a model without a multiplier.
abbrev setup : List ((CatalogStage → Bool) × Form)
setup =
    (all_run, creates_provider (some up))
    ∷ (all_run, creates_provider (some (record up { slug = codes "down" })))
    ∷ (all_run, creates_provider_key (some (key_form (codes "a"))))
    ∷ (all_run, creates_provider_key (some (key_form (codes "a"))))
    ∷ (
      all_run,
      creates_model (
          some (record {
            provider_id = pos 1;
            model = record small_model { reserve_multiplier = pos 0 };
            is_enabled = none;
            timeout_seconds = none;
          })),
    )
    ∷ []

abbrev valid_json : Text → Bool
valid_json text = true

abbrev set_up : Catalog
set_up = after_forms true valid_json nothing setup

abbrev route_in : Resolved → ModelRoute
route_in (Checks.found route) = route
route_in _ = two_keys

abbrev small_route : ModelRoute
small_route = route_in (resolve_model_route all_run set_up (codes "small"))

small_is_routed : resolve_model_route all_run set_up (codes "small") ≡ Checks.found small_route
unfolding wcs_transfer.Catalog.resolve_model_route wcs_transfer.Catalog.Writes.Forms.after_form
    trim_space
small_is_routed = refl

routed-IsPriced_example : IsPriced small_route.model
routed-IsPriced_example =
    routed-IsPriced true valid_json nothing setup all_run (codes "small") small_route tt
      small_is_routed

resolve_model_route-IsRoute_example : IsRoute set_up (codes "small") small_route
resolve_model_route-IsRoute_example =
    resolve_model_route-IsRoute all_run set_up (codes "small") small_route small_is_routed

abbrev down_row : ProviderRow
down_row = record {
  id = pos 2;
  name = codes "Up";
  slug = codes "down";
  provider_type = codes "openai";
  base_url = codes "http://up";
  status = codes "disabled";
  description = [];
  extra_config = codes "{}";
}

abbrev down_action : AdminAction
down_action = record {
  action = codes "provider.update";
  resource_id = pos 2;
  resource_name = codes "Up";
}

-- Two providers cannot have one slug.
conflict :
    (update_provider_form true valid_json all_run set_up (codes "2") (some up)).1 ≡ error 2003
unfolding wcs_transfer.Catalog.Writes.Forms.refusal_code
    wcs_transfer.Catalog.Writes.Forms.after_form trim_space
conflict = refl

disabled-unrouted_example : small_route.provider.id ≢ pos 2
unfolding wcs_transfer.Catalog.resolve_model_route wcs_transfer.Catalog.Writes.Forms.after_form
    trim_space
disabled-unrouted_example =
    disabled-unrouted true valid_json all_run set_up (codes " 2") down down_row down_action all_run
      (codes "small") small_route refl refl refl

abbrev by_length : Text → Text → Bool
by_length a b = leb (length a) (length b)

owner_sees :
    list_models true all_run by_length set_up (some owner_key) ≡ model_list (codes "small" ∷ [])
unfolding list_models wcs_transfer.Access.client_key_allows_model
    wcs_transfer.Catalog.Writes.Forms.after_form trim_space to_lower
owner_sees = refl

list_models-routed_example : In (codes "small") (codes "small" ∷ []) ↔ (
    ((route : ModelRoute) × (resolve_model_route all_run set_up (codes "small")
        ≡ Checks.found route))
    × (may_see (some owner_key) (codes "small") ≡ true))
list_models-routed_example =
    list_models-routed all_run by_length set_up (some owner_key) (codes "small" ∷ [])
      (codes "small") refl refl owner_sees
