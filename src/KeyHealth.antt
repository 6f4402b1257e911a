-- ===== src/KeyHealth.antt =====
-- The tracker of provider keys in cooldown (backend/internal/service/keyhealth/tracker.go). The
-- `sync.Map` is a table, the clock is an argument. `NewHandler` puts a fresh tracker in place of a
-- nil one, so the nil receiver has no counterpart.
pub mod Laws
pub mod Refines
use wcs_transfer.Base.{
  ◌&&◌, Option, none, some, List, [], ◌∷◌, if◌then◌else◌, ℤ, ◌+ℤ◌, ltb_ℤ, is_positive, Text, codes,
  int_eq, Table, lookup, insert, erase,
}
use wcs_transfer.Entity.{Time, Duration, ProviderKey}

pub record State : Type 0 where
  pub until : Time
  pub reason : Text

abbrev pub Tracker : Type 0
Tracker = Table ℤ State

-- A stale entry is deleted when it is read.
unfoldable pub current : Tracker → ℤ → Time → Tracker × Option State
current t key_id now =
    if is_positive key_id
    then (elim (lookup key_id t) [
      | none ↦ (t, none)
      | some state ↦ if ltb_ℤ now state.until then (t, some state) else (erase key_id t, none)
    ])
    else (t, none)

unfoldable pub penalize : Tracker → ℤ → Duration → Text → Time → Tracker
penalize t key_id duration reason now =
    if is_positive key_id && is_positive duration
    then insert key_id (record { until = now +ℤ duration; reason = reason }) t
    else t

unfoldable pub clear : Tracker → ℤ → Tracker
clear t key_id = if is_positive key_id then erase key_id t else t

-- The body of the loop in `EnrichKeys`, after `Current` has answered.
unfoldable pub enrich : Option State → ProviderKey → ProviderKey
enrich none key = record key { health_status = codes "healthy" }
enrich (some state) key = record key {
  health_status = codes "cooldown";
  cooldown_reason = state.reason;
  cooldown_until = some state.until;
}

unfoldable pub enrich_keys : Tracker → List ProviderKey → Time → Tracker × List ProviderKey
enrich_keys t [] now = (t, [])
enrich_keys t (key ∷ items) now =
    let (t', found) = current t key.id now in
    let (t'', rest) = enrich_keys t' items now in (t'', enrich found key ∷ rest)
