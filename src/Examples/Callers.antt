-- ===== src/Examples/Callers.antt =====
-- Callers of the public endpoints, at concrete inputs.
use wcs_transfer.Base.{
  ◌≡◌, refl, true, Option, none, some, [], if◌then◌else◌, pos, Text, codes, text_eq, trim_space,
  to_lower, cut_prefix,
}
use wcs_transfer.Entity.{ClientApiKey}
use wcs_transfer.Examples.{owner_key}
use wcs_transfer.Auth.{KeyFields, next, abort, public_api_auth}

-- The owner's key as a bearer token with a lower-case scheme, after a blank `X-API-Key`.
abbrev bearer : KeyFields
bearer = record {
  query_key = [];
  goog_api_key = [];
  x_api_key = codes " ";
  authorization = codes "bearer  owner ";
}

abbrev known : Text → Option ClientApiKey
known raw_key = if text_eq raw_key (codes "owner") then some owner_key else none

abbrev penniless : Text → Option ClientApiKey
penniless raw_key =
    if text_eq raw_key (codes "owner")
    then some (record owner_key { user_wallet_balance = pos 0 })
    else none

owner_passes : (public_api_auth (some known) true bearer).0 ≡ next (some owner_key)
unfolding public_api_auth trim_space to_lower cut_prefix
owner_passes = refl

empty_wallet : (public_api_auth (some penniless) true bearer).0 ≡ abort 402 (codes "wallet_empty")
unfolding public_api_auth trim_space to_lower cut_prefix
empty_wallet = refl
