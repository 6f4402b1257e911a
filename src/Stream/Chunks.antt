-- ===== src/Stream/Chunks.antt =====
-- The usage that is read from a stream does not depend on how the stream was cut into chunks
-- (backend/internal/api/openai/handler.go and anthropic.go).
use wcs_transfer.Base.{
  ℕ, zero, suc, ◌+◌, ◌≤◌, ◌≡◌, refl, ◌∙◌, inl, inr, Bool, none, some, [], ◌∷◌, ◌++◌, arith,
  Option-cases, length, take, drop, length-drop, drop-append, take-append_left, Text,
}
use wcs_transfer.Stream.{
  index_separator, apply_event, extract_loop, extract_usage_from_stream_buffer,
}

-- A separator that is there stays where it is when more bytes follow.
index_separator-append :
    (a b : Text) (i : ℕ)
    → index_separator a ≡ some i
    → (index_separator (a ++ b) ≡ some i) × (i + 2 ≤ length a)
unfolding index_separator
index_separator-append [] b i h = cc
index_separator-append (x ∷ []) b i h = ground arith
index_separator-append (x ∷ y ∷ a) b i h = elim (Option-cases (index_separator (y ∷ a))) [
  | inl nowhere ↦ ground arith
  | inr (j, e) ↦ ground (arith, index_separator-append (y ∷ a) b j e)
]

pub index_separator-nil : index_separator [] ≡ none
unfolding index_separator
index_separator-nil = refl

module _ {S : Type 0} (skips : Text → Bool) (apply : Text → S → S) where
  abbrev pub extract : Text → S → Text × S
  extract = extract_usage_from_stream_buffer skips apply

  -- Fuel for every byte is enough: more makes no difference.
  fuel_enough :
      (f g : ℕ) (buffer : Text) (s : S)
      → length buffer ≤ f
      → length buffer ≤ g
      → extract_loop skips apply f buffer s ≡ extract_loop skips apply g buffer s
  unfolding extract_loop
  fuel_enough zero zero buffer s h k = refl
  fuel_enough zero (suc g) [] s h k = rw (index_separator-nil, extract_loop) refl
  fuel_enough zero (suc g) (x ∷ buffer) s h k = absurd (omega arith)
  fuel_enough (suc f) zero [] s h k = rw (index_separator-nil, extract_loop) refl
  fuel_enough (suc f) zero (x ∷ buffer) s h k = absurd (omega arith)
  fuel_enough (suc f) (suc g) buffer s h k = elim (Option-cases (index_separator buffer)) [
    | inl nowhere ↦ rw (nowhere, extract_loop) refl
    | inr (i, e) ↦
        rw (e, extract_loop)
          (let (same, room) = index_separator-append buffer [] i e in
            fuel_enough f g (drop (i + 2) buffer) (apply_event skips apply (take i buffer) s)
              (omega (arith, room, length-drop (i + 2) buffer))
              (omega (arith, room, length-drop (i + 2) buffer)))
  ]

  -- A buffer with a whole event in it: the event is applied and the rest is read on.
  extract-event :
      (buffer : Text) (s : S) (i : ℕ)
      → index_separator buffer ≡ some i
      → extract buffer s ≡ extract (drop (i + 2) buffer) (apply_event skips apply (take i buffer) s)
  unfolding extract_usage_from_stream_buffer extract_loop
  extract-event [] s i e = absurd (omega (arith, index_separator-append [] [] i e))
  extract-event (x ∷ buffer) s i e =
      let (same, room) = index_separator-append (x ∷ buffer) [] i e in
      rw (e, extract_loop)
        (fuel_enough (length buffer) (length (drop (i + 2) (x ∷ buffer)))
          (drop (i + 2) (x ∷ buffer)) (apply_event skips apply (take i (x ∷ buffer)) s)
          (omega (arith, room, length-drop (i + 2) (x ∷ buffer))) (omega arith))

  -- A buffer without one is kept.
  pub extract-rest :
      (buffer : Text) (s : S) → index_separator buffer ≡ none → extract buffer s ≡ (buffer, s)
  unfolding extract_usage_from_stream_buffer extract_loop
  extract-rest [] s e = refl
  extract-rest (x ∷ buffer) s e = rw (e, extract_loop) refl

  -- What is kept has no whole event, so that reading it again with more bytes behind it is reading
  -- all the bytes at once.
  extract-append_fuel :
      (fuel : ℕ) (a b : Text) (s : S)
      → length a ≤ fuel
      → extract (a ++ b) s ≡ extract ((extract a s).0 ++ b) (extract a s).1
  unfolding extract_usage_from_stream_buffer
  extract-append_fuel zero [] b s h = refl
  extract-append_fuel zero (x ∷ a) b s h = absurd (omega arith)
  extract-append_fuel (suc fuel) a b s h = elim (Option-cases (index_separator a)) [
    | inl nowhere ↦ rw (extract-rest a s nowhere) refl
    | inr (i, e) ↦
        (let (same, room) = index_separator-append a b i e in
          let split = drop-append (i + 2) a b room in
          let head = take-append_left i a b (omega (arith, room)) in
          let whole : extract (a ++ b) s
              ≡ extract (drop (i + 2) a ++ b) (apply_event skips apply (take i a) s) =
            rw (← split, ← head) (extract-event (a ++ b) s i same) in
          let again =
            extract-append_fuel fuel (drop (i + 2) a) b (apply_event skips apply (take i a) s)
              (omega (arith, room, length-drop (i + 2) a)) in
          rw (extract-event a s i e) (whole ∙ again))
  ]

  pub extract-append :
      (a b : Text) (s : S) → extract (a ++ b) s ≡ extract ((extract a s).0 ++ b) (extract a s).1
  extract-append a b s = extract-append_fuel (length a) a b s (omega arith)
