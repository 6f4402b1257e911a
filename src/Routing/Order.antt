-- ===== src/Routing/Order.antt =====
-- `sort.Slice` in `orderedKeys` (backend/internal/api/openai/handler.go): the keys are only put in
-- another order, and that order is by priority, then by falling weight, then by id.
use wcs_transfer.Base.{
  ◌+◌, ◌≡◌, ◌⊎◌, inl, inr, true, false, List, [], ◌∷◌, arith, Bool-cases, All, ℤ, pos_part,
  neg_part, ◌≤ℤ◌, ◌<ℤ◌,
}
use mathlib.Core.List.{Perm}
use mathlib.Core.List.Perm
use wcs_transfer.Entity.{ProviderKey}
use wcs_transfer.Routing.{key_less, insert_key, sort_keys}

pub insert_key-perm :
    (k : ProviderKey) (keys : List ProviderKey) → Perm (insert_key k keys) (k ∷ keys)
unfolding insert_key
insert_key-perm k [] = Perm.refl (k ∷ [])
insert_key-perm k (j ∷ keys) = elim (Bool-cases (key_less j k)) [
  | inl before ↦ rw before (Perm.trans (Perm.cons j (insert_key-perm k keys)) (Perm.swap k j keys))
  | inr after ↦ rw after (Perm.refl _)
]

pub sort_keys-perm : (keys : List ProviderKey) → Perm (sort_keys keys) keys
unfolding sort_keys
sort_keys-perm [] = Perm.refl []
sort_keys-perm (k ∷ keys) =
    Perm.trans (insert_key-perm k (sort_keys keys)) (Perm.cons k (sort_keys-perm keys))

-- `b` does not belong before `a`.
abbrev pub InOrder : ProviderKey → ProviderKey → Type 0
InOrder a b = key_less b a ≡ false

-- Equal integers, as equal sums of numbers.
abbrev pub SameInt : ℤ → ℤ → Type 0
SameInt a b = pos_part a + neg_part b ≡ pos_part b + neg_part a

-- The order in words: by priority, then the heavier key first, then by id.
abbrev pub ByRank : ProviderKey → ProviderKey → Type 0
ByRank a b =
    (a.priority <ℤ b.priority)
    ⊎ ((SameInt a.priority b.priority)
        × ((b.weight <ℤ a.weight) ⊎ ((SameInt a.weight b.weight) × (a.id ≤ℤ b.id))))

ByRank-trans : (a b c : ProviderKey) → ByRank a b → ByRank b c → ByRank a c
ByRank-trans a b c h k = omega arith

InOrder-ByRank : (a b : ProviderKey) → InOrder a b → ByRank a b
unfolding key_less
InOrder-ByRank a b h = grind arith

ByRank-InOrder : (a b : ProviderKey) → ByRank a b → InOrder a b
unfolding key_less
ByRank-InOrder a b h = ground arith

key_less-ByRank : (a b : ProviderKey) → key_less a b ≡ true → ByRank a b
unfolding key_less
key_less-ByRank a b h = grind arith

abbrev pub IsSorted : List ProviderKey → Type 0
IsSorted [] = Unit
IsSorted (k ∷ keys) = All (ByRank k) keys × IsSorted keys

All-insert_key :
    (P : ProviderKey → Type 0) (k : ProviderKey) (keys : List ProviderKey)
    → P k
    → All P keys
    → All P (insert_key k keys)
unfolding insert_key
All-insert_key P k [] p h = (p, tt)
All-insert_key P k (j ∷ keys) p (q, h) = elim (Bool-cases (key_less j k)) [
  | inl before ↦ rw before (q, All-insert_key P k keys p h)
  | inr after ↦ rw after (p, (q, h))
]

All-ByRank :
    (k j : ProviderKey) (keys : List ProviderKey)
    → ByRank k j
    → All (ByRank j) keys
    → All (ByRank k) keys
All-ByRank k j [] h hs = tt
All-ByRank k j (i ∷ keys) h (p, hs) = (ByRank-trans k j i h p, All-ByRank k j keys h hs)

insert_key-IsSorted :
    (k : ProviderKey) (keys : List ProviderKey) → IsSorted keys → IsSorted (insert_key k keys)
unfolding insert_key
insert_key-IsSorted k [] h = (tt, tt)
insert_key-IsSorted k (j ∷ keys) (h, hs) = elim (Bool-cases (key_less j k)) [
  | inl before ↦ rw before (
    All-insert_key (ByRank j) k keys (key_less-ByRank j k before) h,
    insert_key-IsSorted k keys hs,
  )
  | inr after ↦
      rw after
        (let first = InOrder-ByRank k j after in ((first, All-ByRank k j keys first h), (h, hs)))
]

sort_keys-IsSorted : (keys : List ProviderKey) → IsSorted (sort_keys keys)
unfolding sort_keys
sort_keys-IsSorted [] = tt
sort_keys-IsSorted (k ∷ keys) = insert_key-IsSorted k (sort_keys keys) (sort_keys-IsSorted keys)

-- Sorting keeps every key, as often as it was there, and puts them by rank: at each place all later
-- keys have a larger priority, or the same priority and a smaller weight, or the same of both and
-- an id that is not smaller.
pub sort_keys-ranked :
    (keys : List ProviderKey) → Perm (sort_keys keys) keys × IsSorted (sort_keys keys)
sort_keys-ranked keys = (sort_keys-perm keys, sort_keys-IsSorted keys)
