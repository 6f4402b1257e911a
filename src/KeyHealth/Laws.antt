-- ===== src/KeyHealth/Laws.antt =====
-- What a client of the key tracker sees: cooldowns by key and time, with the lazy deletion of stale
-- entries invisible.
use wcs_transfer.Base.{
  ◌≡◌, refl, ap, ◌∙◌, ◌≢◌, true, Option, none, some, List, [], ◌∷◌, map, arith, if◌then◌else◌, ℤ,
  ◌+ℤ◌, ◌≤ℤ◌, ltb_ℤ, is_positive, eqb_ℤ_iff, Text, int_eq, lookup, lookup-insert, lookup-erase,
}
use mathlib.Core.Path.{fun_ext}
use wcs_transfer.Entity.{Time, Duration, ProviderKey}
use wcs_transfer.KeyHealth.{State, Tracker, current, penalize, clear, enrich, enrich_keys}

-- What a reader of the tracker is told of a key at a time.
unfoldable pub cooldown : Tracker → ℤ → Time → Option State
unfolding current
cooldown t key_id now = (current t key_id now).1

map_same :
    {A B : Type 0} {f g : A → B} → ((a : A) → f a ≡ g a) → (xs : List A) → map f xs ≡ map g xs
map_same h xs = ap (λ f. map f xs) (fun_ext h)

-- An entry counts until its end.
abbrev pub live : Time → Option State → Option State
live now none = none
live now (some state) = if ltb_ℤ now state.until then some state else none

cooldown-lookup :
    (t : Tracker) (key_id : ℤ) (now : Time)
    → cooldown t key_id now ≡ (if is_positive key_id then live now (lookup key_id t) else none)
unfolding cooldown
cooldown-lookup t key_id now = ground arith

-- For a key with a positive id and a positive duration, the penalty holds until its end and no
-- longer, and every other key is told what it was told before.
pub current-penalize :
    (t : Tracker) (key_id other : ℤ) (duration : Duration) (reason : Text) (start now : Time)
    → is_positive key_id ≡ true
    → is_positive duration ≡ true
    → (cooldown (penalize t key_id duration reason start) key_id now ≡ (
        if ltb_ℤ now (start +ℤ duration)
        then some (record { until = start +ℤ duration; reason = reason })
        else none))
      × (other ≢ key_id
          → cooldown (penalize t key_id duration reason start) other now ≡ cooldown t other now)
unfolding penalize
current-penalize t key_id other duration reason start now p q =
    let set =
      λ (j : ℤ). lookup-insert key_id j (record { until = start +ℤ duration; reason = reason }) t in
    (
      ground
          (arith, cooldown-lookup (penalize t key_id duration reason start) key_id now, set key_id),
      λ ne. ground (
        arith,
        cooldown-lookup (penalize t key_id duration reason start) other now,
        cooldown-lookup t other now,
        set other,
      ),
    )

-- A cleared key is not in cooldown, and every other key is told what it was told before.
pub current-clear :
    (t : Tracker) (key_id other : ℤ) (now : Time)
    → (cooldown (clear t key_id) key_id now ≡ none)
      × (other ≢ key_id → cooldown (clear t key_id) other now ≡ cooldown t other now)
unfolding clear
current-clear t key_id other now = (
  ground (arith, cooldown-lookup (clear t key_id) key_id now, lookup-erase key_id key_id t),
  λ ne. ground (
    arith,
    cooldown-lookup (clear t key_id) other now,
    cooldown-lookup t other now,
    lookup-erase key_id other t,
  ),
)

-- Reading a key deletes its stale entry, which no later reading of any key can tell.
pub current-current :
    (t : Tracker) (key_id other : ℤ) (now later : Time)
    → now ≤ℤ later
    → cooldown (current t key_id now).0 other later ≡ cooldown t other later
unfolding current
current-current t key_id other now later h = ground (
  arith,
  cooldown-lookup (current t key_id now).0 other later,
  cooldown-lookup t other later,
  lookup-erase key_id other t,
  eqb_ℤ_iff key_id other,
)

-- Although the loop deletes stale entries on the way, every key is enriched with what the tracker
-- said of it before the loop.
pub enrich_keys-map :
    (t : Tracker) (items : List ProviderKey) (now : Time)
    → (enrich_keys t items now).1 ≡ map (λ key. enrich (cooldown t key.id now) key) items
unfolding enrich_keys cooldown
enrich_keys-map t [] now = refl
enrich_keys-map t (key ∷ items) now = ap (◌∷◌ (enrich (current t key.id now).1 key)) (
    enrich_keys-map (current t key.id now).0 items now
    ∙ map_same
        (λ k. ap (λ found. enrich found k) (current-current t key.id k.id now now (omega arith)))
        items)
