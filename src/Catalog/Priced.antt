-- ===== src/Catalog/Priced.antt =====
-- Prices and limits of the models that the store's writes leave
-- (backend/internal/repository/postgres/store.go; backend/migrations).
use wcs_transfer.Base.{
  ◌≡◌, refl, Bool, Bool-cases, true, false, Option, none, some, Option-cases, List, [], ◌∷◌, arith,
  All, All-append, inl, inr, ℤ, pos, ◌≤ℤ◌, ◌<ℤ◌, eqb_ℤ,
}
use wcs_transfer.Entity.{Model}
use wcs_transfer.ClientKeys.{find}
use wcs_transfer.Catalog.{ProviderRow, ProviderKeyRow, ModelRow, Catalog, CatalogStage, write_row}
use wcs_transfer.Catalog.Writes.{
  Refusal, Stored, judge_model, write, replace, create_provider, update_provider,
  create_provider_key, update_provider_key, create_model, update_model,
}

-- No price and no limit is negative, and the multiplier and the time limit are positive.
abbrev pub IsPriced : Model → Type 0
IsPriced m =
    (pos 0 <ℤ m.reserve_multiplier)
    × (pos 0 ≤ℤ m.reserve_min_amount)
    × (pos 0 ≤ℤ m.cost_input_per_1m)
    × (pos 0 ≤ℤ m.cost_output_per_1m)
    × (pos 0 ≤ℤ m.sale_input_per_1m)
    × (pos 0 ≤ℤ m.sale_output_per_1m)
    × (pos 0 ≤ℤ m.max_tokens)
    × (pos 0 <ℤ m.timeout_seconds)

abbrev pub AllPriced : Catalog → Type 0
AllPriced c = All (λ row. IsPriced row.model) c.models

judge_model-IsPriced :
    (c : Catalog) (row : ModelRow) → judge_model c row ≡ none → IsPriced row.model
unfolding judge_model
judge_model-IsPriced c row h = ground (arith, h)

-- A write that only goes through where the row is in order.
write-AllPriced :
    {R : Type 0} (runs : Bool) (judged : Option Refusal) (c c' : Catalog) (result : Stored R)
    → AllPriced c
    → (judged ≡ none → AllPriced c')
    → AllPriced (write runs judged c c' result).0
write-AllPriced false none c c' result h k = h
write-AllPriced true none c c' result h k = k refl
write-AllPriced false (some refusal) c c' result h k = h
write-AllPriced true (some refusal) c c' result h k = h

replace-IsPriced :
    (id : ℤ) (row : ModelRow) (rows : List ModelRow)
    → IsPriced row.model
    → All (λ r. IsPriced r.model) rows
    → All (λ r. IsPriced r.model) (replace (λ m. m.id) id row rows)
replace-IsPriced id row [] p h = tt
replace-IsPriced id row (r ∷ rows) p (q, h) = (
  elim (Bool-cases (eqb_ℤ r.id id)) [ inl e ↦ rw e p | inr e ↦ rw e q ],
  replace-IsPriced id row rows p h,
)

module _ (runs : CatalogStage → Bool) (c : Catalog) (h : AllPriced c) where
  pub create_provider-AllPriced : (row : ProviderRow) → AllPriced (create_provider runs c row).0
  unfolding create_provider
  create_provider-AllPriced row = write-AllPriced (runs write_row) _ _ _ _ h (λ e. h)

  pub create_provider_key-AllPriced :
      (row : ProviderKeyRow) → AllPriced (create_provider_key runs c row).0
  unfolding create_provider_key
  create_provider_key-AllPriced row = write-AllPriced (runs write_row) _ _ _ _ h (λ e. h)

  pub create_model-AllPriced : (row : ModelRow) → AllPriced (create_model runs c row).0
  unfolding create_model
  create_model-AllPriced row = write-AllPriced (runs write_row) _ _ _ _ h (λ e.
      All-append (λ r. IsPriced r.model) c.models _ h
        (judge_model-IsPriced c (record row { id = pos c.next_model }) e, tt))

  pub update_provider-AllPriced : (row : ProviderRow) → AllPriced (update_provider runs c row).0
  unfolding update_provider
  update_provider-AllPriced row = elim (Option-cases (find (λ p. eqb_ℤ p.id row.id) c.providers)) [
    | inl n ↦ rw (n, update_provider) (write-AllPriced (runs write_row) none c c _ h (λ e. h))
    | inr (old, s) ↦ rw (s, update_provider) (write-AllPriced (runs write_row) _ _ _ _ h (λ e. h))
  ]

  pub update_provider_key-AllPriced :
      (row : ProviderKeyRow) → AllPriced (update_provider_key runs c row).0
  unfolding update_provider_key
  update_provider_key-AllPriced row = elim (Option-cases (find (λ k. eqb_ℤ k.id row.id) c.keys)) [
    | inl n ↦ rw (n, update_provider_key) (write-AllPriced (runs write_row) none c c _ h (λ e. h))
    | inr (old, s) ↦
        rw (s, update_provider_key) (write-AllPriced (runs write_row) _ _ _ _ h (λ e. h))
  ]

  pub update_model-AllPriced : (row : ModelRow) → AllPriced (update_model runs c row).0
  unfolding update_model
  update_model-AllPriced row = elim (Option-cases (find (λ m. eqb_ℤ m.id row.id) c.models)) [
    | inl n ↦ rw (n, update_model) (write-AllPriced (runs write_row) none c c _ h (λ e. h))
    | inr (old, s) ↦
        rw (s, update_model)
          (write-AllPriced (runs write_row) _ _ _ _ h
            (λ e. replace-IsPriced row.id row c.models (judge_model-IsPriced c row e) h))
  ]
