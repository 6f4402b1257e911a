-- ===== src/Routing/Rotation.antt =====
-- The strategy "round_robin" of `orderedKeys` (backend/internal/api/openai/handler.go).
use wcs_transfer.Base.{
  ℕ, zero, suc, ◌+◌, ◌%◌, ◌^◌, ◌<◌, ◌≡◌, refl, ap, ◌∙◌, Option, none, some, List, [], ◌∷◌, ◌++◌,
  arith, length, take, drop, get_elem?, head?, take-append-drop, Text, text_key_eq, lookup,
  lookup-insert, beq_refl,
}
use native.Mathlib.Nat.{mod-lt}
use mathlib.Core.Path.{subst}
use mathlib.Core.List.{Perm, perm_append_comm}
use wcs_transfer.Entity.{ProviderKey}
use wcs_transfer.Routing.{Counters, or_zero, rotation_index, rotate_keys, round_robin}

pub rotate_keys-perm {ℓ} : {A : Type ℓ} (n : ℕ) (xs : List A) → Perm (rotate_keys n xs) xs
unfolding rotate_keys
rotate_keys-perm n xs =
    subst (λ ys. Perm (drop n xs ++ take n xs) ys) (take-append-drop n xs)
      (perm_append_comm (drop n xs) (take n xs))

head?-rotate_keys {ℓ} :
    {A : Type ℓ} (n : ℕ) (xs ys : List A) → n < length xs → head? (drop n xs ++ ys) ≡ get_elem? xs n
head?-rotate_keys n [] ys h = elim h [ ]
head?-rotate_keys zero (x ∷ xs) ys h = refl
head?-rotate_keys (suc n) (x ∷ xs) ys h = head?-rotate_keys n xs ys (omega arith)

-- The counter of a model, which starts at zero.
abbrev pub calls_made : Counters → Text → ℕ
calls_made counters name = or_zero (lookup name counters)

-- Below 2^63 calls the rotation is by the number of calls made, and that number goes up by one.
pub round_robin_lem :
    (counters : Counters) (name : Text) (keys : List ProviderKey)
    → calls_made counters name < 2 ^ 63
    → let (counters', rotated) = round_robin counters name keys in
      (rotated ≡ some (rotate_keys (calls_made counters name % length keys) keys))
      × (calls_made counters' name ≡ calls_made counters name + 1)
unfolding round_robin rotation_index
round_robin_lem counters name keys h =
    let c = calls_made counters name in
    (
      ground arith,
      ground (arith, lookup-insert name name ((c + 1) % 2 ^ 64) counters, beq_refl name),
    )

-- The counters after a number of calls in a row.
unfoldable pub calls : ℕ → Counters → Text → List ProviderKey → Counters
calls zero counters name keys = counters
calls (suc n) counters name keys = calls n (round_robin counters name keys).0 name keys

calls_made-calls :
    (n : ℕ) (counters : Counters) (name : Text) (keys : List ProviderKey)
    → calls_made counters name + n < 2 ^ 63
    → calls_made (calls n counters name keys) name ≡ calls_made counters name + n
unfolding calls
calls_made-calls zero counters name keys h = omega arith
calls_made-calls (suc n) counters name keys h =
    let step = (round_robin_lem counters name keys (omega arith)).1 in
    omega (
      arith,
      step,
      calls_made-calls n (round_robin counters name keys).0 name keys (omega (arith, step)),
    )

-- The key that is tried first, where the rotation gives a list.
abbrev pub first_key : Counters × Option (List ProviderKey) → Option ProviderKey
first_key (_, none) = none
first_key (_, some keys) = head? keys

-- Calls in a row go round the keys: the call after `n` others begins with the key at the place
-- (calls made before + n) modulo the number of keys, as long as the calls stay below 2^63 and
-- there is a key.
pub round_robin_fair :
    (n : ℕ) (counters : Counters) (name : Text) (keys : List ProviderKey)
    → calls_made counters name + n < 2 ^ 63
    → 0 < length keys
    → first_key (round_robin (calls n counters name keys) name keys)
      ≡ get_elem? keys ((calls_made counters name + n) % length keys)
unfolding rotate_keys
round_robin_fair n counters name keys h some_key =
    let made = calls_made-calls n counters name keys h in
    let place = (calls_made counters name + n) % length keys in
    let step = (round_robin_lem (calls n counters name keys) name keys (omega (arith, made))).0 in
    ap (λ r. first_key (counters, r))
      (step ∙ ap (λ c. some (rotate_keys (c % length keys) keys)) made)
    ∙ head?-rotate_keys place keys (take place keys)
        (mod-lt (calls_made counters name + n) some_key)
