-- ===== src/Billing/Bounds.antt =====
-- What the amounts and reserves of backend/internal/api/openai/handler.go guarantee.
use wcs_transfer.Base.{
  ℕ, ◌≡◌, ◌⊎◌, false, arith, ℤ, pos, ◌+ℤ◌, ◌*ℤ◌, *ℤ_mono, scale_grows, ◌≤ℤ◌, is_positive, *ℤ_nonneg,
  int_laws, Text, codes,
}
use wcs_transfer.Entity.{Money, Model}
use wcs_transfer.Json.{Fields, get_field}
use wcs_transfer.Billing.{
  ticks_per_price, unit_multiplier, amounts_for_usage, apply_reserve_policy, estimate_prompt_tokens,
  reserved_completion, estimate_chat_reserve_amount,
}

-- No price is negative.
pub record HasPrices (model : Model) : Type 0 where
  pub cost_input : pos 0 ≤ℤ model.cost_input_per_1m
  pub cost_output : pos 0 ≤ℤ model.cost_output_per_1m
  pub sale_input : pos 0 ≤ℤ model.sale_input_per_1m
  pub sale_output : pos 0 ≤ℤ model.sale_output_per_1m

priced :
    (p c a b : ℤ)
    → pos 0 ≤ℤ p
    → pos 0 ≤ℤ c
    → pos 0 ≤ℤ a
    → pos 0 ≤ℤ b
    → pos 0 ≤ℤ (p *ℤ a +ℤ c *ℤ b) *ℤ ticks_per_price
priced p c a b hp hc ha hb =
    *ℤ_nonneg (p *ℤ a +ℤ c *ℤ b) ticks_per_price
      (omega (int_laws, *ℤ_nonneg p a hp ha, *ℤ_nonneg c b hc hb)) (omega arith)

priced_mono :
    (p c p' c' a b : ℤ)
    → pos 0 ≤ℤ p
    → pos 0 ≤ℤ c
    → p ≤ℤ p'
    → c ≤ℤ c'
    → pos 0 ≤ℤ a
    → pos 0 ≤ℤ b
    → (p *ℤ a +ℤ c *ℤ b) *ℤ ticks_per_price ≤ℤ (p' *ℤ a +ℤ c' *ℤ b) *ℤ ticks_per_price
priced_mono p c p' c' a b hp hc kp kc ha hb =
    *ℤ_mono (p *ℤ a +ℤ c *ℤ b) (p' *ℤ a +ℤ c' *ℤ b) ticks_per_price ticks_per_price
      (omega (int_laws, *ℤ_nonneg p a hp ha, *ℤ_nonneg c b hc hb)) (omega arith)
      (omega (
        int_laws,
        *ℤ_mono p p' a a hp ha kp (omega arith),
        *ℤ_mono c c' b b hc hb kc (omega arith),
      ))
      (omega arith)

-- With no negative price and no negative count, neither amount is negative.
pub amounts_for_usage_nonneg :
    (p c : ℤ) (model : Model)
    → HasPrices model
    → pos 0 ≤ℤ p
    → pos 0 ≤ℤ c
    → (pos 0 ≤ℤ (amounts_for_usage p c model).0) × (pos 0 ≤ℤ (amounts_for_usage p c model).1)
unfolding amounts_for_usage
amounts_for_usage_nonneg p c model h hp hc = ground (
  arith,
  priced p c model.cost_input_per_1m model.cost_output_per_1m hp hc h.cost_input h.cost_output,
  priced p c model.sale_input_per_1m model.sale_output_per_1m hp hc h.sale_input h.sale_output,
)

-- More tokens are billed at least as much.
pub amounts_for_usage_mono :
    (p c p' c' : ℤ) (model : Model)
    → HasPrices model
    → pos 0 ≤ℤ p
    → pos 0 ≤ℤ c
    → p ≤ℤ p'
    → c ≤ℤ c'
    → (amounts_for_usage p c model).1 ≤ℤ (amounts_for_usage p' c' model).1
unfolding amounts_for_usage
amounts_for_usage_mono p c p' c' model h hp hc kp kc = ground (
  arith,
  priced p' c' model.sale_input_per_1m model.sale_output_per_1m (omega arith) (omega arith)
      h.sale_input h.sale_output,
  priced_mono p c p' c' model.sale_input_per_1m model.sale_output_per_1m hp hc kp kc h.sale_input
      h.sale_output,
)

-- A multiplier is unset, and then counts as one, or it is at least one.
abbrev pub Multiplies : Model → Type 0
Multiplies model =
    (is_positive model.reserve_multiplier ≡ false)
    ⊎ (pos unit_multiplier ≤ℤ model.reserve_multiplier)

-- A reserve is never negative nor under the model's minimum; and where the estimate is not negative
-- and the multiplier is unset or at least one, it is not under the estimate.
pub apply_reserve_policy_bounds :
    (estimated : Money) (model : Model)
    → (pos 0 ≤ℤ apply_reserve_policy estimated model)
      × (model.reserve_min_amount ≤ℤ apply_reserve_policy estimated model)
      × (pos 0 ≤ℤ estimated → Multiplies model → estimated ≤ℤ apply_reserve_policy estimated model)
unfolding apply_reserve_policy
apply_reserve_policy_bounds estimated model =
    let m = model.reserve_multiplier in
    (
      ground arith,
      ground arith,
      λ h k. ground (
        arith,
        scale_grows estimated m unit_multiplier,
        scale_grows estimated (pos unit_multiplier) unit_multiplier,
      ),
    )

module _ (number_text : ℤ → ℕ → Text) where
  -- The reserve that a chat request asks for covers the bill of every usage within it: of prompt
  -- tokens up to the estimate and completion tokens up to those the request is reserved for, where
  -- no price is negative and the multiplier is unset or at least one.
  pub estimate_chat_reserve_amount_covers :
      (payload : Fields) (model : Model) (p c : ℤ)
      → HasPrices model
      → Multiplies model
      → pos 0 ≤ℤ p
      → pos 0 ≤ℤ c
      → p ≤ℤ estimate_prompt_tokens number_text (get_field (codes "messages") payload)
      → c ≤ℤ reserved_completion payload model
      → (amounts_for_usage p c model).1 ≤ℤ estimate_chat_reserve_amount number_text payload model
  unfolding estimate_chat_reserve_amount
  estimate_chat_reserve_amount_covers payload model p c h k hp hc kp kc =
      let p' = estimate_prompt_tokens number_text (get_field (codes "messages") payload) in
      let c' = reserved_completion payload model in
      let estimated = (amounts_for_usage p' c' model).1 in
      let more = amounts_for_usage_mono p c p' c' model h hp hc kp kc in
      let known = (amounts_for_usage_nonneg p c model h hp hc).1 in
      omega (
        arith,
        more,
        (apply_reserve_policy_bounds estimated model).2 (omega (arith, more, known)) k,
      )
