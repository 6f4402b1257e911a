-- ===== src/Examples/Cooldowns.antt =====
-- A sequence of calls of the key tracker.
use wcs_transfer.Base.{
  ◌≡◌, refl, none, some, List, [], ◌∷◌, arith, ◌+ℤ◌, pos, codes, lookup, insert, erase,
}
use wcs_transfer.KeyHealth.{penalize, current, clear}
use wcs_transfer.KeyHealth.Refines.{Call, penalized, cleared, asked, run, replay, run_refines}

abbrev calls : List Call
calls =
    penalized (pos 1) (pos 10) (codes "rate_limited") (pos 0)
    ∷ asked (pos 1) (pos 5)
    ∷ asked (pos 1) (pos 10)
    ∷ penalized (pos 1) (pos 10) (codes "auth_error") (pos 11)
    ∷ cleared (pos 1) (pos 12)
    ∷ asked (pos 1) (pos 13)
    ∷ []

run_refines_example : run calls [] ≡ replay calls (λ key_id. none)
run_refines_example = run_refines calls (pos 0) (omega arith)

answers :
    run calls []
    ≡ some (record { until = pos 10; reason = codes "rate_limited" }) ∷ none ∷ none ∷ []
unfolding run penalize current clear lookup insert erase ◌+ℤ◌
answers = refl
