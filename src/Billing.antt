-- ===== src/Billing.antt =====
-- Prices and reserves (backend/internal/api/openai/handler.go): `amountsForUsage`,
-- `applyReservePolicy`, the estimates of a request's tokens and of the reserve that a wallet must
-- hold. The floating-point amounts of the source are exact whole numbers of ticks here.

use wcs_transfer.Base.{
  ℕ, ◌+◌, ◌/◌, not, ◌&&◌, Option, none, some, ◌==◌, if◌then◌else◌, length, ℤ, pos, ◌+ℤ◌, ◌*ℤ◌, ◌/ℤ◌,
  ltb_ℤ, is_positive, Text, codes, is_empty, trim_space,
}
pub mod Bounds
use wcs_transfer.Entity.{Money, Model}
use wcs_transfer.Json.{
  Json, null, bool, num, str, arr, obj, Items, nil, cons, Fields, end, field, get_field, truncate,
}

-- Ticks in (one token) x (10^-6 dollars for a million tokens): 10^-12 dollars.
abbrev pub ticks_per_price : ℤ
ticks_per_price = pos 10000

-- The value of a multiplier of one.
abbrev pub unit_multiplier : ℕ
unit_multiplier = 10000

-- The cost and the billable amount of a usage.
unfoldable pub amounts_for_usage : ℤ → ℤ → Model → Money × Money
amounts_for_usage prompt_tokens completion_tokens model =
    if not (is_positive prompt_tokens) && not (is_positive completion_tokens)
    then (pos 0, pos 0)
    else (
      (prompt_tokens *ℤ model.cost_input_per_1m +ℤ completion_tokens *ℤ model.cost_output_per_1m)
          *ℤ ticks_per_price,
      (prompt_tokens *ℤ model.sale_input_per_1m +ℤ completion_tokens *ℤ model.sale_output_per_1m)
          *ℤ ticks_per_price,
    )

unfoldable pub apply_reserve_policy : Money → Model → Money
apply_reserve_policy estimated_billable_amount model =
    let multiplier =
      if is_positive model.reserve_multiplier
      then model.reserve_multiplier
      else pos unit_multiplier in
    let reserve = estimated_billable_amount *ℤ multiplier /ℤ unit_multiplier in
    let reserve' =
      if ltb_ℤ reserve model.reserve_min_amount then model.reserve_min_amount else reserve in
    if ltb_ℤ reserve' (pos 0) then pos 0 else reserve'

unfoldable pub extract_positive_int : Option Json → ℤ
unfolding truncate
extract_positive_int (some (num m e)) = if is_positive m then truncate m e else pos 0
extract_positive_int (some null) = pos 0
extract_positive_int (some (bool b)) = pos 0
extract_positive_int (some (str s)) = pos 0
extract_positive_int (some (arr xs)) = pos 0
extract_positive_int (some (obj fs)) = pos 0
extract_positive_int none = pos 0

-- The completion tokens that a chat request is reserved for.
unfoldable pub reserved_completion : Fields → Model → ℤ
unfolding get_field extract_positive_int
reserved_completion payload model =
    let requested = extract_positive_int (get_field (codes "max_tokens") payload) in
    let completion = if is_positive requested then requested else model.max_tokens in
    if is_positive completion then completion else pos 1024

unfoldable pub estimate_tokens_from_string : Text → ℕ
unfolding trim_space
estimate_tokens_from_string value =
    let trimmed = trim_space value in
    if is_empty trimmed
    then 0
    else (let estimated = length trimmed / 4 in if estimated == 0 then 1 else estimated)

-- The text that `json.Marshal` makes of a number is not modelled: it is an argument.
module _ (number_text : ℤ → ℕ → Text) where
  unfoldable mutual
    unfolding estimate_tokens_from_string

    pub estimate_tokens : Json → ℕ
    estimate_tokens null = 0
    estimate_tokens (bool b) =
        estimate_tokens_from_string (if b then codes "true" else codes "false")
    estimate_tokens (num m e) = estimate_tokens_from_string (number_text m e)
    estimate_tokens (str s) = estimate_tokens_from_string s
    estimate_tokens (arr items) = estimate_items items
    estimate_tokens (obj fields) = estimate_fields fields

    pub estimate_items : Items → ℕ
    estimate_items nil = 0
    estimate_items (cons item items) = estimate_tokens item + estimate_items items

    pub estimate_fields : Fields → ℕ
    estimate_fields end = 0
    estimate_fields (field name item fields) = estimate_tokens item + estimate_fields fields

  -- `estimatePromptTokens`, of a value that may be missing
  unfoldable pub estimate_prompt_tokens : Option Json → ℤ
  estimate_prompt_tokens none = pos 0
  estimate_prompt_tokens (some value) = pos (estimate_tokens value)

  unfoldable pub estimate_chat_reserve_amount : Fields → Model → Money
  estimate_chat_reserve_amount payload model =
      let prompt_tokens = estimate_prompt_tokens (get_field (codes "messages") payload) in
      apply_reserve_policy
        (amounts_for_usage prompt_tokens (reserved_completion payload model) model).1 model

  -- `estimateAnthropicReserveAmount`, in anthropic.go
  unfoldable pub estimate_anthropic_reserve_amount : Fields → Model → Money
  estimate_anthropic_reserve_amount payload model =
      let prompt_tokens = estimate_prompt_tokens (get_field (codes "messages") payload) in
      apply_reserve_policy
        (amounts_for_usage prompt_tokens (reserved_completion payload model) model).1 model

  unfoldable pub estimate_embeddings_reserve_amount : Fields → Model → Money
  estimate_embeddings_reserve_amount payload model =
      let estimated = estimate_prompt_tokens (get_field (codes "input") payload) in
      let prompt_tokens = if is_positive estimated then estimated else pos 256 in
      apply_reserve_policy (amounts_for_usage prompt_tokens (pos 0) model).1 model
