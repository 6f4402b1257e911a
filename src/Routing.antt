-- ===== src/Routing.antt =====
-- The choice and order of provider keys in backend/internal/api/openai/handler.go: `orderedKeys`,
-- `buildProxyAttempts`, `applyChatRouteOptions` and the small predicates beside them. The handler's
-- `counters` and its key tracker are threaded through, and `time.Now()` is an argument.
use wcs_transfer.Base.{
  ℕ, ◌+◌, ◌-◌, ◌%◌, ◌^◌, Bool, true, false, not, ◌||◌, Option, none, some, List, [], ◌∷◌, ◌++◌, map,
  ltb, ◌==◌, if◌then◌else◌, length, take, drop, ℤ, pos, ltb_ℤ, leb_ℤ, eqb_ℤ, is_positive, Text,
  codes, text_eq, is_empty, trim_space, text_key_eq, Table, lookup, insert,
}
pub mod Order
pub mod Rotation
pub mod Health
pub mod Attempts
use wcs_transfer.Entity.{Time, ProviderKey, ModelRoute}
use wcs_transfer.KeyHealth.{State, Tracker, current}

-- The result of a call: a value, one of the errors that the code makes, or a run-time panic.
pub data Routed {ℓ} (A : Type ℓ) : Type ℓ where
  ok : A → Routed A
  no_active_key : Routed A
  key_not_available : Routed A
  index_panic : Routed A

-- The comparison that `sort.Slice` is given.
unfoldable pub key_less : ProviderKey → ProviderKey → Bool
key_less a b =
    if not (eqb_ℤ a.priority b.priority)
    then ltb_ℤ a.priority b.priority
    else (if not (eqb_ℤ a.weight b.weight) then ltb_ℤ b.weight a.weight else ltb_ℤ a.id b.id)

-- `sort.Slice`, as insertion: the comparison leaves no freedom between keys of different ids.
unfoldable pub insert_key : ProviderKey → List ProviderKey → List ProviderKey
unfolding key_less
insert_key k [] = k ∷ []
insert_key k (j ∷ keys) = if key_less j k then j ∷ insert_key k keys else k ∷ j ∷ keys

unfoldable pub sort_keys : List ProviderKey → List ProviderKey
unfolding insert_key
sort_keys [] = []
sort_keys (k ∷ keys) = insert_key k (sort_keys keys)

-- The handler's `sync.Map` of `atomic.Uint64`, one for each public model name.
abbrev pub Counters : Type 0
Counters = Table Text ℕ

abbrev pub or_zero : Option ℕ → ℕ
or_zero none = 0
or_zero (some n) = n

-- `int(counter.Add(1)-1) % len(keys)`, for the value `c` before the call. From 2^63 on the `int` is
-- negative, and a negative remainder is no index.
unfoldable pub rotation_index : ℕ → ℕ → Option ℕ
rotation_index c n =
    if ltb c (2 ^ 63) then some (c % n) else (if (2 ^ 64 - c) % n == 0 then some 0 else none)

-- `append(keys[index:], keys[:index]...)`
unfoldable pub rotate_keys {ℓ} : {A : Type ℓ} → ℕ → List A → List A
rotate_keys index keys = drop index keys ++ take index keys

-- The branch of `orderedKeys` for the strategy "round_robin".
unfoldable pub round_robin :
    Counters → Text → List ProviderKey → Counters × Option (List ProviderKey)
unfolding rotation_index rotate_keys
round_robin counters public_name keys =
    let c = or_zero (lookup public_name counters) in
    (
      insert public_name ((c + 1) % 2 ^ 64) counters,
      elim (rotation_index c (length keys)) [
        | none ↦ none
        | some index ↦ some (rotate_keys index keys)
      ],
    )

-- An entry of `skipped`.
pub record SkippedKey : Type 0 where
  pub key : ProviderKey
  pub state : State

-- The keys with and without a penalty, as the loop over the keys collects them.
unfoldable pub filter_keys :
    Tracker → Time → List ProviderKey → Tracker × List ProviderKey × List SkippedKey
filter_keys t now [] = (t, [], [])
filter_keys t now (key ∷ keys) =
    let (t', penalty) = current t key.id now in
    let (t'', filtered, skipped) = filter_keys t' now keys in
    elim penalty [
      | none ↦ (t'', key ∷ filtered, skipped)
      | some state ↦ (t'', filtered, record { key = key; state = state } ∷ skipped)
    ]

pub record RouterState : Type 0 where
  pub counters : Counters
  pub key_health : Tracker

abbrev pub Ordered : Type 0
Ordered = List ProviderKey × List SkippedKey

-- The end of `orderedKeys`: where every key is penalized, all of them are kept.
unfoldable pub healthy_first :
    RouterState → Time → Bool → List ProviderKey → RouterState × Routed Ordered
healthy_first s now ignore_key_health keys =
    if ignore_key_health
    then (s, ok (keys, []))
    else (let (t, filtered, skipped) = filter_keys s.key_health now keys in
        (
          record s { key_health = t },
          elim filtered [ [] ↦ ok (keys, skipped) | k ∷ ks ↦ ok (k ∷ ks, skipped) ],
        ))

abbrev pub is_empty_keys : List ProviderKey → Bool
is_empty_keys [] = true
is_empty_keys (_ ∷ _) = false

abbrev pub is_round_robin : ModelRoute → Bool
is_round_robin route = text_eq route.model.route_strategy (codes "round_robin")

unfoldable pub ordered_keys : RouterState → ModelRoute → Bool → Time → RouterState × Routed Ordered
ordered_keys s route ignore_key_health now =
    if is_empty_keys route.keys
    then (s, no_active_key)
    else (let keys = sort_keys route.keys in
        if is_round_robin route
        then (let (counters, rotated) = round_robin s.counters route.model.public_name keys in
            let s' = record s { counters = counters } in
            elim rotated [
              | none ↦ (s', index_panic)
              | some ks ↦ healthy_first s' now ignore_key_health ks
            ])
        else healthy_first s now ignore_key_health keys)

pub data Phase : Type 0 where
  primary retry : Phase

pub record ProxyAttempt : Type 0 where
  pub key : ProviderKey
  pub phase : Phase

-- `keys[len(keys)-1]`
unfoldable pub last_key : List ProviderKey → Option ProviderKey
last_key [] = none
last_key (k ∷ []) = some k
last_key (k ∷ j ∷ keys) = last_key (j ∷ keys)

unfoldable pub primary_attempts : List ProviderKey → List ProxyAttempt
primary_attempts = map (λ key. record { key = key; phase = primary })

-- The attempts over the ordered keys: each once, and the last one again.
unfoldable pub attempts_of : List ProviderKey → Routed (List ProxyAttempt)
attempts_of keys = elim (last_key keys) [
  | none ↦ index_panic
  | some key ↦ ok (primary_attempts keys ++ record { key = key; phase = retry } ∷ [])
]

unfoldable pub build_proxy_attempts :
    RouterState
    → ModelRoute
    → Bool
    → Time
    → RouterState × Routed (List ProxyAttempt × List SkippedKey)
build_proxy_attempts s route ignore_key_health now =
    let (s', ordered) = ordered_keys s route ignore_key_health now in
    (
      s',
      elim ordered [
        | ok (keys, skipped) ↦ elim (attempts_of keys) [
          | ok attempts ↦ ok (attempts, skipped)
          | no_active_key ↦ no_active_key
          | key_not_available ↦ key_not_available
          | index_panic ↦ index_panic
        ]
        | no_active_key ↦ no_active_key
        | key_not_available ↦ key_not_available
        | index_panic ↦ index_panic
      ],
    )

unfoldable pub find_key : ℤ → List ProviderKey → Option ProviderKey
find_key id [] = none
find_key id (k ∷ keys) = if eqb_ℤ k.id id then some k else find_key id keys

-- The strategy of `options`, where it is given, in the place of the model's.
abbrev pub with_strategy : Text → ModelRoute → ModelRoute
with_strategy strategy route =
    if is_empty strategy
    then route
    else record route { model = record (route.model) { route_strategy = strategy } }

-- `applyChatRouteOptions`; the metadata it writes repeats the strategy and the key of the result.
unfoldable pub apply_chat_route_options : ModelRoute → Text → ℤ → Routed ModelRoute
unfolding find_key
apply_chat_route_options route strategy provider_key_id =
    let route' = with_strategy strategy route in
    if not (is_positive provider_key_id)
    then ok route'
    else elim (find_key provider_key_id route'.keys) [
      | none ↦ key_not_available
      | some key ↦ ok (record route' {
        keys = key ∷ [];
        model = record (route'.model) { route_strategy = codes "fixed" };
      })
    ]

unfoldable pub should_failover_status : ℤ → Bool
should_failover_status status =
    eqb_ℤ status (pos 401)
    || eqb_ℤ status (pos 403)
    || eqb_ℤ status (pos 429)
    || leb_ℤ (pos 500) status

unfoldable pub should_retry_status : ℤ → Bool
should_retry_status status = eqb_ℤ status (pos 429) || leb_ℤ (pos 500) status

pub data Decision : Type 0 where
  retry_next failover_next return_error return_response : Decision

unfoldable pub next_attempt_decision : Phase → Decision
next_attempt_decision retry = retry_next
next_attempt_decision primary = failover_next

unfoldable pub is_supported_route_strategy : Text → Bool
unfolding trim_space
is_supported_route_strategy value =
    let v = trim_space value in
    text_eq v (codes "fixed") || text_eq v (codes "failover") || text_eq v (codes "round_robin")
