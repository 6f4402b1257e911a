-- ===== src/Portal/Isolation.antt =====
-- What one user's requests to the portal leave of another's keys
-- (backend/internal/api/tenant/handler.go; backend/internal/repository/postgres/store.go).
use wcs_transfer.Base.{
  ◌≡◌, refl, ap, ◌∙◌, false, some, List, [], ◌∷◌, ◌++◌, arith, All, filter, ℤ, eqb_ℤ, eqb_ℤ_iff,
  Option-cases, inl, inr,
}
use wcs_transfer.ClientKeys.{KeyRow, Tables, Given, nullable_int64}
use wcs_transfer.ClientKeys.Writes.{change_rows, is_users, owned_by, disabled_row}
use wcs_transfer.Portal.{Visit, after_visits, handle}
use wcs_transfer.Portal.Changes.{Changed, same, added, disabled, renamed, named_row, handle-Changed}

abbrev pub own : ℤ → List KeyRow → List KeyRow
own user_id rows = filter (owned_by user_id) rows

module _ (owner user_id : ℤ) (other : eqb_ℤ user_id owner ≡ false) where
  -- A change that keeps the owner, of another user's row.
  own-change_rows :
      (id : ℤ) (f : KeyRow → KeyRow)
      → ((row : KeyRow) → (f row).user_id ≡ row.user_id)
      → (rows : List KeyRow) → own owner (change_rows (is_users user_id id) f rows) ≡ own owner rows
  own-change_rows id f keeps [] = refl
  own-change_rows id f keeps (row ∷ rows) = elim (Option-cases row.user_id) [
    | inl e ↦ ground (arith, e, own-change_rows id f keeps rows)
    | inr (u, e) ↦ ground (
      arith,
      e,
      other,
      keeps row,
      eqb_ℤ_iff u owner,
      eqb_ℤ_iff u user_id,
      own-change_rows id f keeps rows,
    )
  ]

  own-append :
      (rows : List KeyRow) (row : KeyRow)
      → row.user_id ≡ nullable_int64 user_id
      → own owner (rows ++ row ∷ []) ≡ own owner rows
  unfolding nullable_int64
  own-append [] row h = ground (arith, h, other)
  own-append (r ∷ rows) row h = ground (arith, own-append rows row h)

  own-Changed :
      (rows rows' : List KeyRow) → Changed user_id rows rows' → own owner rows' ≡ own owner rows
  own-Changed rows rows' (same e) = ap (own owner) e
  own-Changed rows rows' (added row h new e) = ap (own owner) e ∙ own-append rows row h
  own-Changed rows rows' (disabled id e) =
      ap (own owner) e ∙ own-change_rows id disabled_row (λ row. refl) rows
  own-Changed rows rows' (renamed id name e) =
      ap (own owner) e ∙ own-change_rows id (named_row name) (λ row. refl) rows

-- Whatever requests about client keys others make in the portal, in any order and with any
-- failures of the database, the rows of a user's keys stay as they were.
pub after_visits-own :
    (given : Given) (owner : ℤ) (t : Tables) (visits : List Visit)
    → All (λ v. eqb_ℤ v.user_id owner ≡ false) visits
    → own owner (after_visits given t visits).keys ≡ own owner t.keys
after_visits-own given owner t [] h = refl
after_visits-own given owner t (v ∷ visits) (other, h) =
    after_visits-own given owner (handle given v.portal t (some v.user_id) v.request).0 visits h
    ∙ own-Changed owner v.user_id other t.keys
        (handle given v.portal t (some v.user_id) v.request).0.keys
        (handle-Changed given v.portal t v.user_id v.request)
