-- ===== src/Routing/Health.antt =====
-- `orderedKeys` (backend/internal/api/openai/handler.go) against a description without state: the
-- sorted and rotated keys, of which those in cooldown are left out unless all are in cooldown.
use wcs_transfer.Base.{
  ◌%◌, ◌^◌, ◌<◌, ◌≡◌, refl, ◌≢◌, ◌⊎◌, inl, inr, Bool, true, false, Option, none, some, List, [],
  ◌∷◌, arith, if◌then◌else◌, Bool-cases, Option-cases, length, filter, All, ℤ,
}
use mathlib.Core.List.{Perm}
use mathlib.Core.List.Perm
use wcs_transfer.Entity.{Time, ProviderKey, ModelRoute}
use wcs_transfer.KeyHealth.{Tracker, current}
use wcs_transfer.KeyHealth.Laws.{cooldown, current-current}
use wcs_transfer.Routing.{
  ok, sort_keys, rotate_keys, RouterState, SkippedKey, Ordered, filter_keys, round_robin,
  healthy_first, is_round_robin, is_empty_keys, ordered_keys,
}
use wcs_transfer.Routing.Order.{sort_keys-perm}
use wcs_transfer.Routing.Rotation.{calls_made, rotate_keys-perm, round_robin_lem}

abbrev pub is_none {ℓ} : {A : Type ℓ} → Option A → Bool
is_none none = true
is_none (some _) = false

abbrev pub is_healthy : Tracker → Time → ProviderKey → Bool
is_healthy t now key = is_none (cooldown t key.id now)

-- The penalized keys with what the tracker says of them.
abbrev pub penalized : Tracker → Time → List ProviderKey → List SkippedKey
penalized t now [] = []
penalized t now (key ∷ keys) = elim (cooldown t key.id now) [
  | none ↦ penalized t now keys
  | some state ↦ record { key = key; state = state } ∷ penalized t now keys
]

filter_keys-current :
    (t : Tracker) (id : ℤ) (now : Time) (keys : List ProviderKey)
    → (filter (is_healthy (current t id now).0 now) keys ≡ filter (is_healthy t now) keys)
      × (penalized (current t id now).0 now keys ≡ penalized t now keys)
filter_keys-current t id now [] = (refl, refl)
filter_keys-current t id now (key ∷ keys) =
    let (same, same') = filter_keys-current t id now keys in
    let told = current-current t id key.id now now (omega arith) in
    (rw (told, same), ground (arith, told, same'))

pub filter_keys_lem :
    (t : Tracker) (now : Time) (keys : List ProviderKey)
    → let (_, filtered, skipped) = filter_keys t now keys in
      (filtered ≡ filter (is_healthy t now) keys) × (skipped ≡ penalized t now keys)
unfolding filter_keys cooldown
filter_keys_lem t now [] = (refl, refl)
filter_keys_lem t now (key ∷ keys) = ground (
  arith,
  filter_keys_lem (current t key.id now).0 now keys,
  filter_keys-current t key.id now keys,
)

-- The keys in the order in which they would be tried if all were healthy.
unfoldable pub candidates : RouterState → ModelRoute → List ProviderKey
candidates s route =
    let keys = sort_keys route.keys in
    if is_round_robin route
    then rotate_keys (calls_made s.counters route.model.public_name % length keys) keys
    else keys

-- The healthy ones, or all if there are none.
abbrev pub or_all : List ProviderKey → List ProviderKey → List ProviderKey
or_all all [] = all
or_all all (k ∷ healthy) = k ∷ healthy

unfoldable pub usable : Tracker → Time → Bool → List ProviderKey → Ordered
usable t now ignore_key_health keys =
    if ignore_key_health
    then (keys, [])
    else (or_all keys (filter (is_healthy t now) keys), penalized t now keys)

-- No key is lost or made up before the keys in cooldown are left out.
pub candidates-perm : (s : RouterState) (route : ModelRoute) → Perm (candidates s route) route.keys
unfolding candidates
candidates-perm s route = elim (Bool-cases (is_round_robin route)) [
  | inl e ↦
      rw e (Perm.trans (rotate_keys-perm _ (sort_keys route.keys)) (sort_keys-perm route.keys))
  | inr e ↦ rw e (sort_keys-perm route.keys)
]

healthy_first-usable :
    (s : RouterState) (now : Time) (ignore : Bool) (keys : List ProviderKey)
    → (healthy_first s now ignore keys).1 ≡ ok (usable s.key_health now ignore keys)
unfolding healthy_first usable
healthy_first-usable s now true keys = refl
healthy_first-usable s now false keys = ground (arith, filter_keys_lem s.key_health now keys)

length-is_empty : (keys : List ProviderKey) → 0 < length keys → is_empty_keys keys ≡ false
length-is_empty [] h = absurd (omega arith)
length-is_empty (k ∷ keys) h = refl

-- Where the route has a key, and fewer than 2^63 calls were made for the model, the keys are found:
-- they are the usable ones among the candidates, with the penalized ones as the skipped.
pub ordered_keys-usable :
    (s : RouterState) (route : ModelRoute) (ignore : Bool) (now : Time)
    → 0 < length route.keys
    → calls_made s.counters route.model.public_name < 2 ^ 63
    → (ordered_keys s route ignore now).1 ≡ ok (usable s.key_health now ignore (candidates s route))
unfolding ordered_keys candidates
ordered_keys-usable s route ignore now some_key few =
    let keys = sort_keys route.keys in
    let name = route.model.public_name in
    ground (
      arith,
      length-is_empty route.keys some_key,
      (round_robin_lem s.counters name keys few).0,
      healthy_first-usable s now ignore keys,
      healthy_first-usable (record s { counters = (round_robin s.counters name keys).0 }) now ignore
          (rotate_keys (calls_made s.counters name % length keys) keys),
    )

abbrev pub InCooldown : Tracker → Time → ProviderKey → Type 0
InCooldown t now key = cooldown t key.id now ≢ none

filter-All :
    (t : Tracker) (now : Time) (keys : List ProviderKey)
    → All (λ key. cooldown t key.id now ≡ none) (filter (is_healthy t now) keys)
filter-All t now [] = tt
filter-All t now (key ∷ keys) = elim (Option-cases (cooldown t key.id now)) [
  | inl healthy ↦ rw healthy (healthy, filter-All t now keys)
  | inr (state, e) ↦ rw e (filter-All t now keys)
]

cons-ne-nil : {k : ProviderKey} {keys : List ProviderKey} → (k ∷ keys) ≢ []
cons-ne-nil h = cc

filter-nil :
    (t : Tracker) (now : Time) (keys : List ProviderKey)
    → filter (is_healthy t now) keys ≡ []
    → All (InCooldown t now) keys
filter-nil t now [] h = tt
filter-nil t now (key ∷ keys) h = elim (Option-cases (cooldown t key.id now)) [
  | inl healthy ↦ absurd (cons-ne-nil (rw healthy at h))
  | inr (state, e) ↦ (λ healthy. cc, filter-nil t now keys (rw e at h))
]

-- Either some keys are healthy, and they are the result, or all are in cooldown and are kept.
usable_avoids_cooldown :
    (t : Tracker) (now : Time) (keys : List ProviderKey)
    → (((usable t now false keys).0 ≡ filter (is_healthy t now) keys)
        × All (λ key. cooldown t key.id now ≡ none) (usable t now false keys).0)
      ⊎ (((usable t now false keys).0 ≡ keys) × All (InCooldown t now) (usable t now false keys).0)
unfolding usable
usable_avoids_cooldown t now keys = go (filter (is_healthy t now) keys) refl
  where
    go :
        (healthy : List ProviderKey)
        → filter (is_healthy t now) keys ≡ healthy
        → ((or_all keys healthy ≡ healthy)
            × All (λ key. cooldown t key.id now ≡ none) (or_all keys healthy))
          ⊎ ((or_all keys healthy ≡ keys) × All (InCooldown t now) (or_all keys healthy))
    go [] e = inr (refl, filter-nil t now keys e)
    go (k ∷ healthy) e = inl (refl, rw e at (filter-All t now keys))

-- Where the key health counts, the route has a key and fewer than 2^63 calls were made for the
-- model, the keys found are of the route alone: the candidates, which are the route's keys in some
-- order, without those in cooldown, so that none of the keys found is in cooldown; or all of the
-- candidates, and then every one of them is in cooldown.
pub ordered_keys_avoid_cooldown :
    (s : RouterState) (route : ModelRoute) (now : Time)
    → 0 < length route.keys
    → calls_made s.counters route.model.public_name < 2 ^ 63
    → (keys : List ProviderKey) × (skipped : List SkippedKey) × ((ordered_keys s route false now).1
        ≡ ok (keys, skipped))
      × Perm (candidates s route) route.keys
      × (((keys ≡ filter (is_healthy s.key_health now) (candidates s route))
            × All (λ key. cooldown s.key_health key.id now ≡ none) keys)
          ⊎ ((keys ≡ candidates s route) × All (InCooldown s.key_health now) keys))
ordered_keys_avoid_cooldown s route now some_key few =
    let (keys, skipped) = usable s.key_health now false (candidates s route) in
    (
      keys,
      skipped,
      ordered_keys-usable s route false now some_key few,
      candidates-perm s route,
      usable_avoids_cooldown s.key_health now (candidates s route),
    )
