-- ===== src/Routing/Attempts.antt =====
-- `buildProxyAttempts` (backend/internal/api/openai/handler.go).
use wcs_transfer.Base.{
  ◌^◌, ◌<◌, ◌≡◌, refl, sym, ap, ◌∙◌, Bool, true, false, some, List, [], ◌∷◌, ◌++◌, arith, length,
  filter,
}
use mathlib.Core.List.{Perm}
use mathlib.Core.List.Perm
use wcs_transfer.Entity.{Time, ProviderKey, ModelRoute}
use wcs_transfer.KeyHealth.{Tracker}
use wcs_transfer.Routing.{
  ok, RouterState, SkippedKey, ProxyAttempt, retry, last_key, primary_attempts, attempts_of,
  ordered_keys, build_proxy_attempts,
}
use wcs_transfer.Routing.Rotation.{calls_made}
use wcs_transfer.Routing.Health.{
  candidates, candidates-perm, usable, or_all, is_healthy, ordered_keys-usable,
}

pub last_key-some :
    (k : ProviderKey) (keys : List ProviderKey)
    → (last : ProviderKey) × (before : List ProviderKey) × (last_key (k ∷ keys) ≡ some last)
      × (k ∷ keys ≡ before ++ last ∷ [])
unfolding last_key
last_key-some k [] = (k, [], refl, refl)
last_key-some k (j ∷ keys) =
    let (last, before, found, split) = last_key-some j keys in
    (last, k ∷ before, found, ap (◌∷◌ k) split)

usable-nonempty :
    (t : Tracker) (now : Time) (ignore : Bool) (k : ProviderKey) (keys : List ProviderKey)
    → (j : ProviderKey) × (rest : List ProviderKey) × ((usable t now ignore (k ∷ keys)).0
        ≡ j ∷ rest)
unfolding usable
usable-nonempty t now true k keys = (k, keys, refl)
usable-nonempty t now false k keys = go (filter (is_healthy t now) (k ∷ keys))
  where
    go :
        (healthy : List ProviderKey)
        → (j : ProviderKey) × (rest : List ProviderKey) × (or_all (k ∷ keys) healthy ≡ j ∷ rest)
    go [] = (k, keys, refl)
    go (j ∷ rest) = (j, rest, refl)

last_key-append :
    (before : List ProviderKey) (last : ProviderKey) → last_key (before ++ last ∷ []) ≡ some last
unfolding last_key
last_key-append [] last = refl
last_key-append (k ∷ []) last = refl
last_key-append (k ∷ j ∷ before) last = last_key-append (j ∷ before) last

attempts_of-append :
    (before : List ProviderKey) (last : ProviderKey)
    → attempts_of (before ++ last ∷ [])
      ≡ ok (primary_attempts (before ++ last ∷ []) ++ record { key = last; phase = retry } ∷ [])
unfolding attempts_of
attempts_of-append before last = rw (last_key-append before last, attempts_of)

perm-nonempty :
    (xs : List ProviderKey) {ys : List ProviderKey}
    → Perm xs ys
    → 0 < length ys
    → (k : ProviderKey) × (rest : List ProviderKey) × (xs ≡ k ∷ rest)
perm-nonempty [] p h = absurd (omega (arith, ap length (sym (Perm.nil-eq p))))
perm-nonempty (k ∷ rest) p h = (k, rest, refl)

build_of_ordered :
    (s : RouterState) (route : ModelRoute) (ignore : Bool) (now : Time) {keys : List ProviderKey}
    {skipped : List SkippedKey} {attempts : List ProxyAttempt}
    → (ordered_keys s route ignore now).1 ≡ ok (keys, skipped)
    → attempts_of keys ≡ ok attempts
    → (build_proxy_attempts s route ignore now).1 ≡ ok (attempts, skipped)
unfolding build_proxy_attempts
build_of_ordered s route ignore now h k = ground arith

-- Where the route has a key and fewer than 2^63 calls were made for its model, the attempts are
-- built, whatever the health of the keys: each usable key once, in order, and then the last of them
-- a second time as the retry.
pub build_proxy_attempts_total :
    (s : RouterState) (route : ModelRoute) (ignore : Bool) (now : Time)
    → 0 < length route.keys
    → calls_made s.counters route.model.public_name < 2 ^ 63
    → (before : List ProviderKey) × (last : ProviderKey) × (skipped : List SkippedKey) × (usable
          s.key_health now ignore
          (candidates s route)
        ≡ (before ++ last ∷ [], skipped))
      × ((build_proxy_attempts s route ignore now).1
          ≡ ok (
            primary_attempts (before ++ last ∷ []) ++ record { key = last; phase = retry } ∷ [],
            skipped,
          ))
build_proxy_attempts_total s route ignore now some_key few =
    let (k, rest, e) = perm-nonempty (candidates s route) (candidates-perm s route) some_key in
    let (j, more, e') = usable-nonempty s.key_health now ignore k rest in
    let (last, before, found, split) = last_key-some j more in
    let keys = rw (← e) at e' ∙ split in
    let found_keys = usable s.key_health now ignore (candidates s route) in
    let full : found_keys ≡ (before ++ last ∷ [], found_keys.1) = λ i. (keys i, found_keys.1) in
    (
      before,
      last,
      found_keys.1,
      full,
      build_of_ordered s route ignore now
          (ordered_keys-usable s route ignore now some_key few ∙ ap ok full)
          (attempts_of-append before last),
    )
