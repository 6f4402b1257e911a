-- ===== src/Catalog/Withdrawn.antt =====
-- A provider that an administrator disables (backend/internal/api/admin/handler.go:
-- `UpdateProvider`; backend/internal/repository/postgres/store.go).
use wcs_transfer.Base.{
  ◌≡◌, refl, sym, ap, ◌∙◌, ◌≢◌, Bool, Bool-cases, true, false, some, Option-cases, List, [], ◌∷◌,
  arith, All, inl, inr, eqb_ℤ, eqb_ℤ_iff, Text, codes,
}
use wcs_transfer.Entity.{ModelRoute}
use wcs_transfer.Checks
use wcs_transfer.ClientKeys.{find}
use wcs_transfer.Catalog.{ProviderRow, Catalog, CatalogStage, resolve_model_route}
use wcs_transfer.Catalog.Writes.{
  Stored, stored, refused, invalid_input, statement_failed, no_such_row, replace, judge_provider,
  update_provider,
}
use wcs_transfer.Console.{AdminAction, saved, parse_form_id, acted}
use wcs_transfer.Catalog.Writes.Forms.{
  ProviderForm, provider_input, provider_missing, answer, submit, update_provider_form,
}
use wcs_transfer.Catalog.Members.{All-at}
use wcs_transfer.Catalog.Routes.{resolve_model_route-IsRoute}

replaced :
    (row : ProviderRow) (rows : List ProviderRow)
    → All (λ r. (eqb_ℤ r.id row.id ≡ true) → (r ≡ row)) (replace (λ p. p.id) row.id row rows)
replaced row [] = tt
replaced row (r ∷ rows) = (
  elim (Bool-cases (eqb_ℤ r.id row.id)) [
    | inl e ↦ rw e (λ same. refl)
    | inr e ↦ rw e (λ same. absurd (ground (arith, e, same)))
  ],
  replaced row rows,
)

module _ (runs : CatalogStage → Bool) (c : Catalog) where
  update_provider-stored :
      (row r : ProviderRow)
      → (update_provider runs c row).1 ≡ stored r
      → (r ≡ row)
        × ((update_provider runs c row).0.providers ≡ replace (λ p. p.id) row.id row c.providers)
  unfolding update_provider
  update_provider-stored row r e = elim (Option-cases (find (λ p. eqb_ℤ p.id row.id) c.providers)) [
    | inl n ↦ ground (arith, e, n)
    | inr (old, s) ↦ elim (Option-cases (judge_provider c row)) [
      | inl j ↦ ground (arith, e, s, j)
      | inr (refusal, j) ↦ ground (arith, e, s, j)
    ]
  ]

answer-saved :
    {A : Type 0} (action_of : A → AdminAction) (result : Stored A) (row : A) (action : AdminAction)
    → answer action_of result ≡ saved row action
    → result ≡ stored row
answer-saved action_of (stored r) row action e = ground (arith, e)
answer-saved action_of (refused refusal) row action e = ground (arith, e)
answer-saved action_of (invalid_input message) row action e = ground (arith, e)
answer-saved action_of statement_failed row action e = ground (arith, e)
answer-saved action_of no_such_row row action e = ground (arith, e)

submit-saved :
    {A : Type 0} (c : Catalog) (lacking : Bool) (action_of : A → AdminAction)
    (r : Catalog × Stored A) (row : A) (action : AdminAction)
    → (submit c lacking action_of r).1 ≡ saved row action
    → (r.1 ≡ stored row) × ((submit c lacking action_of r).0 ≡ r.0)
submit-saved c true action_of (c', result) row action e = ground (arith, e)
submit-saved c false action_of (c', result) row action e =
    (answer-saved action_of result row action e, refl)

module _ (has_store : Bool) (valid : Text → Bool) (runs : CatalogStage → Bool) (c : Catalog) where
  update_provider_form-saved :
      (param : Text) (form : ProviderForm) (row : ProviderRow) (action : AdminAction)
      → (update_provider_form has_store valid runs c param (some form)).1 ≡ saved row action
      → (update_provider_form has_store valid runs c param (some form)).0.providers
        ≡ replace (λ p. p.id) row.id row c.providers
  unfolding update_provider_form
  update_provider_form-saved param form row action e = elim (Bool-cases has_store) [
    | inr s ↦ ground (arith, e, s)
    | inl s ↦ elim (Option-cases (parse_form_id param)) [
      | inl n ↦ ground (arith, e, s, n)
      | inr (id, n) ↦
          let input = provider_input valid id form in
          let r = update_provider runs c input in
          let name = codes "provider.update" in
          let (is_stored, kept) =
            submit-saved c (provider_missing input) (λ p. acted name p.id p.name) r row action
              (ground (arith, e, s, n)) in
          let (is_input, providers) = update_provider-stored runs c input row is_stored in
          let written : r.0.providers ≡ replace (λ p. p.id) row.id row c.providers =
            rw is_input providers in
          ground (arith, s, n, ap (λ x. x.providers) kept ∙ written)
    ]
  ]

  -- Once the console has answered that a provider is saved as disabled, no name is routed to it,
  -- until the catalog is changed again.
  pub disabled-unrouted :
      (param : Text) (form : ProviderForm) (row : ProviderRow) (action : AdminAction)
      (runs' : CatalogStage → Bool) (public_name : Text) (route : ModelRoute)
      → (update_provider_form has_store valid runs c param (some form)).1 ≡ saved row action
      → row.status ≡ codes "disabled"
      → resolve_model_route runs'
          (update_provider_form has_store valid runs c param (some form)).0
          public_name
        ≡ Checks.found route
      → route.provider.id ≢ row.id
  disabled-unrouted param form row action runs' public_name route e disabled found same =
      let c' = (update_provider_form has_store valid runs c param (some form)).0 in
      let (model, (p, known, active, is_provider), keys) =
        resolve_model_route-IsRoute runs' c' public_name route found in
      let all : All (λ r. (eqb_ℤ r.id row.id ≡ true) → (r ≡ row)) c'.providers =
        rw (update_provider_form-saved param form row action e) (replaced row c.providers) in
      let id : p.id ≡ row.id = ap (λ x. x.id) is_provider ∙ same in
      let is_row : p ≡ row =
        All-at (λ r. (eqb_ℤ r.id row.id ≡ true) → (r ≡ row)) c'.providers p all known
          ((eqb_ℤ_iff p.id row.id).1 id) in
      let clash : codes "active" ≡ codes "disabled" =
        sym active ∙ ap (λ x. x.status) is_row ∙ disabled in
      cc
