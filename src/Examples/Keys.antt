-- ===== src/Examples/Keys.antt =====
-- Keys, attempts and streams at concrete inputs.
use wcs_transfer.Base.{
  ◌≤◌, ℕ, ◌+◌, ◌≡◌, refl, ◌≢◌, ◌⊎◌, Bool, false, none, some, List, [], ◌∷◌, arith, length, filter,
  All, pos, Text, codes, lookup,
}
use mathlib.Core.List.{Perm}
use wcs_transfer.Entity.{ProviderKey}
use wcs_transfer.Json.{str, get_field, set_field, get_field-set_field}
use wcs_transfer.Examples.{
  first_key, second_key, two_keys, services, upstream_with, empty_trace, chat_payload,
}
use wcs_transfer.KeyHealth.{Tracker, penalize}
use wcs_transfer.KeyHealth.Laws.{cooldown}
use wcs_transfer.Routing.{
  ProxyAttempt, RouterState, primary, retry, SkippedKey, ok, ordered_keys, round_robin,
}
use wcs_transfer.Routing.Rotation.{calls, first_key as first_of, round_robin_fair}
use wcs_transfer.Routing.Health.{candidates, is_healthy, InCooldown, ordered_keys_avoid_cooldown}
use wcs_transfer.Proxy.{chat_completions, exhausted, attempt_loop}
use wcs_transfer.Proxy.Answer.{EndSays, attempt_loop-EndSays}
use wcs_transfer.Proxy.Loop.{moves, last_records, attempt_loop_tally}
use wcs_transfer.Stream.{stream_upstream_response}
use wcs_transfer.Stream.Whole.{Sent, join, stream_upstream_response-Sent}

get_field-set_field_example :
    get_field (codes "messages") (set_field (codes "model") (str (codes "small-1")) chat_payload)
    ≡ get_field (codes "messages") chat_payload
get_field-set_field_example =
    get_field-set_field (codes "model") (codes "messages") (str (codes "small-1")) chat_payload

abbrev one_penalty : Tracker
one_penalty = penalize [] (pos 2) (pos 100) (codes "rate_limited") (pos 1000)

round_robin_fair_example :
    first_of (round_robin (calls 3 [] (codes "small") two_keys.keys) (codes "small") two_keys.keys)
    ≡ some second_key
unfolding lookup
round_robin_fair_example =
    round_robin_fair 3 [] (codes "small") two_keys.keys (omega arith) (omega arith)

abbrev limited_router : RouterState
limited_router = record { counters = []; key_health = one_penalty }

ordered_keys_avoid_cooldown_example :
    (keys : List ProviderKey) × (skipped : List SkippedKey) × ((ordered_keys limited_router two_keys
        false
        (pos 1050)).1
      ≡ ok (keys, skipped))
    × Perm (candidates limited_router two_keys) two_keys.keys
    × (((keys ≡ filter (is_healthy one_penalty (pos 1050)) (candidates limited_router two_keys))
          × All (λ key. cooldown one_penalty key.id (pos 1050) ≡ none) keys)
        ⊎ ((keys ≡ candidates limited_router two_keys)
            × All (InCooldown one_penalty (pos 1050)) keys))
unfolding lookup
ordered_keys_avoid_cooldown_example =
    ordered_keys_avoid_cooldown limited_router two_keys (pos 1050) (omega arith) (omega arith)

abbrev twice : ProviderKey → List ProxyAttempt
twice k = record { key = k; phase = primary } ∷ record { key = k; phase = retry } ∷ []

attempt_loop-EndSays_example :
    EndSays chat_completions services.decode
      (upstream_with (pos 500))
      0
      (twice first_key)
      (attempt_loop chat_completions services.decode
        (upstream_with (pos 500))
        0
        (twice first_key)
        empty_trace).1
attempt_loop-EndSays_example =
    attempt_loop-EndSays chat_completions services.decode (upstream_with (pos 500)) 0
      (twice first_key) empty_trace

attempt_loop_tally_example :
    let (t', e) =
      attempt_loop chat_completions services.decode
        (upstream_with (pos 500))
        0
        (twice first_key)
        empty_trace in
    (e ≢ exhausted)
    × (length t'.attempt_metadata + moves empty_trace
        ≡ length empty_trace.attempt_metadata + moves t' + last_records e)
    × (length t'.attempt_metadata ≤ length empty_trace.attempt_metadata + 2)
attempt_loop_tally_example =
    attempt_loop_tally chat_completions services.decode (upstream_with (pos 500)) 0
      (record { key = first_key; phase = primary }) (record { key = first_key; phase = retry } ∷ [])
      empty_trace

-- The state counts the bytes of the payloads. The separator is cut in two.
abbrev add_length : Text → ℕ → ℕ
add_length payload n = n + length payload

abbrev skip_none : Text → Bool
skip_none payload = false

abbrev cut_chunks : List Text
cut_chunks = codes "data: abc" ∷ (10 ∷ []) ∷ (10 ∷ codes "data: d") ∷ []

stream_upstream_response-Sent_example :
    Sent skip_none add_length 0
      (join cut_chunks)
      (stream_upstream_response skip_none add_length (λ i. none) cut_chunks none 0)
    × ((stream_upstream_response skip_none add_length (λ i. none) cut_chunks none 0).stream_error
        ≡ none)
stream_upstream_response-Sent_example =
    stream_upstream_response-Sent skip_none add_length (λ i. none) cut_chunks none 0 (λ k. refl)
