-- ===== src/VertexStream/Items.antt =====
-- The loop over the chunks of a stream from Vertex AI, to a client that takes every write
-- (backend/internal/api/openai/gemini_vertexai.go: `streamVertexAISDKResponse`).
use wcs_transfer.Base.{
  ℕ, ◌+◌, ◌≡◌, refl, sym, ap, ◌∙◌, Bool, true, false, ◌||◌, Option, none, some, Option-cases, inl,
  inr, List, [], ◌∷◌, ◌++◌, map, arith, pos, Text, codes,
}
use mathlib.Core.List.{append-nil, append_assoc}
use wcs_transfer.Entity.{Model}
use wcs_transfer.Json.{Fields}
use wcs_transfer.Log.{ChatLogState}
use wcs_transfer.Respond.{failed_with}
use wcs_transfer.VertexSdk.{
  Usage, Generated, StreamItem, chunk, stream_failed, apply_vertex_ai_usage,
}
use wcs_transfer.VertexStream.{
  Streaming, event, error_json, sent, finish, stream_items, stream_vertex_ai_sdk_response,
}

-- The events of the chunks that can be encoded, in order.
abbrev pub events : List Generated → Text
events [] = []
events (g ∷ gs) = elim g.json [ none ↦ events gs | some json ↦ event json ++ events gs ]

abbrev pub has_event : List Generated → Bool
has_event [] = false
has_event (g ∷ gs) = elim g.json [ none ↦ has_event gs | some json ↦ true ]

-- The last usage that a chunk reports.
abbrev pub last_usage : List Generated → Option Usage
last_usage [] = none
last_usage (g ∷ gs) = elim (last_usage gs) [ none ↦ g.usage | some usage ↦ some usage ]

module _ (encode : Fields → Option Text) (model : Model) where
  abbrev pub never_fails : ℕ → Option Text
  never_fails i = none

  after_chunk : Generated → Streaming → Streaming
  after_chunk g p =
      let p' = record p { log = apply_vertex_ai_usage model g.usage p.log } in
      elim g.json [ none ↦ p' | some json ↦ sent encode model never_fails json p' ]

  pub after : List Generated → Streaming → Streaming
  after [] p = p
  after (g ∷ gs) p = after gs (after_chunk g p)

  -- The number of the next write.
  next_write : Generated → ℕ → ℕ
  next_write g i = elim g.json [ none ↦ i | some json ↦ i + 1 ]

  stream_items-chunk :
      (g : Generated) (items : List StreamItem) (i : ℕ) (p : Streaming)
      → stream_items encode model never_fails i (chunk g ∷ items) p
        ≡ stream_items encode model never_fails (next_write g i) items (after_chunk g p)
  unfolding stream_items after_chunk next_write
  stream_items-chunk g items i p = elim (Option-cases g.json) [
    | inl skipped ↦ ground (arith, skipped)
    | inr (json, encoded) ↦ ground (arith, encoded)
  ]

  stream_items-chunks :
      (gs : List Generated) (rest : List StreamItem) (i : ℕ) (p : Streaming)
      → (j : ℕ) × (stream_items encode model never_fails i (map chunk gs ++ rest) p
          ≡ stream_items encode model never_fails j rest (after gs p))
  unfolding after
  stream_items-chunks [] rest i p = (i, refl)
  stream_items-chunks (g ∷ gs) rest i p =
      let (j, e) = stream_items-chunks gs rest (next_write g i) (after_chunk g p) in
      (j, stream_items-chunk g (map chunk gs ++ rest) i p ∙ e)

  apply_vertex_ai_usage_twice :
      (later earlier : Option Usage) (s : ChatLogState)
      → apply_vertex_ai_usage model later (apply_vertex_ai_usage model earlier s)
        ≡ apply_vertex_ai_usage model (elim later [ none ↦ earlier | some usage ↦ some usage ]) s
  unfolding apply_vertex_ai_usage
  apply_vertex_ai_usage_twice none earlier s = refl
  apply_vertex_ai_usage_twice (some usage) none s = refl
  apply_vertex_ai_usage_twice (some usage) (some old) s = refl

  after_chunk-log :
      (g : Generated) (p : Streaming)
      → (after_chunk g p).log ≡ apply_vertex_ai_usage model g.usage p.log
  unfolding after_chunk
  after_chunk-log g p = ground arith

  after-log :
      (gs : List Generated) (p : Streaming)
      → (after gs p).log ≡ apply_vertex_ai_usage model (last_usage gs) p.log
  unfolding after apply_vertex_ai_usage
  after-log [] p = refl
  after-log (g ∷ gs) p =
      after-log gs (after_chunk g p)
      ∙ ap (apply_vertex_ai_usage model (last_usage gs)) (after_chunk-log g p)
      ∙ apply_vertex_ai_usage_twice (last_usage gs) g.usage p.log

  after-written :
      (gs : List Generated) (p : Streaming) → (after gs p).written ≡ p.written ++ events gs
  unfolding after after_chunk
  after-written [] p = sym (append-nil p.written)
  after-written (g ∷ gs) p = elim (Option-cases g.json) [
    | inl skipped ↦ ground (arith, skipped, after-written gs (after_chunk g p))
    | inr (json, encoded) ↦ ground (
      arith,
      encoded,
      after-written gs (after_chunk g p),
      append_assoc p.written (event json) (events gs),
    )
  ]

  after-wrote_any :
      (gs : List Generated) (p : Streaming) → (after gs p).wrote_any ≡ (p.wrote_any || has_event gs)
  unfolding after after_chunk
  after-wrote_any [] p = ground arith
  after-wrote_any (g ∷ gs) p = ground (arith, after-wrote_any gs (after_chunk g p))

  pub begun : ChatLogState → Streaming
  begun s = record {
    log = record s { http_status = pos 200; success = true };
    written = [];
    wrote_any = false;
    preview = [];
    truncated = false;
  }

  -- A log with the amounts of a usage that may be missing.
  abbrev pub IsBilledFor : Option Usage → ChatLogState → ChatLogState → Type 0
  IsBilledFor usage s s' =
      (s'.billable_amount ≡ (apply_vertex_ai_usage model usage s).billable_amount)
      × (s'.total_tokens ≡ (apply_vertex_ai_usage model usage s).total_tokens)

  apply_vertex_ai_usage-begun :
      (usage : Option Usage) (s : ChatLogState)
      → IsBilledFor usage s (apply_vertex_ai_usage model usage (begun s).log)
        × ((apply_vertex_ai_usage model usage (begun s).log).success ≡ true)
        × ((apply_vertex_ai_usage model usage (begun s).log).error_type ≡ s.error_type)
  unfolding apply_vertex_ai_usage begun
  apply_vertex_ai_usage-begun none s = ((refl, refl), refl, refl)
  apply_vertex_ai_usage-begun (some usage) s = ((refl, refl), refl, refl)

  pub after-begun :
      (gs : List Generated) (s : ChatLogState)
      → let p = after gs (begun s) in
        (p.written ≡ events gs)
        × (p.wrote_any ≡ has_event gs)
        × (p.log.success ≡ true)
        × (p.log.error_type ≡ s.error_type)
        × IsBilledFor (last_usage gs) s p.log
  unfolding begun
  after-begun gs s =
      let (billed, won, kept) = apply_vertex_ai_usage-begun (last_usage gs) s in
      (
        after-written gs (begun s),
        after-wrote_any gs (begun s),
        rw (after-log gs (begun s)) won,
        rw (after-log gs (begun s)) kept,
        rw (after-log gs (begun s)) billed,
      )

  pub no_event : (gs : List Generated) → has_event gs ≡ false → events gs ≡ []
  no_event [] h = refl
  no_event (g ∷ gs) h = ground (arith, h, no_event gs)

  pub stream-chunks :
      (gs : List Generated) (s : ChatLogState)
      → stream_vertex_ai_sdk_response encode model never_fails (map chunk gs) s
        ≡ finish encode model never_fails (after gs (begun s))
  unfolding stream_vertex_ai_sdk_response stream_items begun
  stream-chunks gs s =
      let (j, e) = stream_items-chunks gs [] 0 (begun s) in
      ap
        (λ items.
          finish encode model never_fails (stream_items encode model never_fails 0 items (begun s)))
        (sym (append-nil (map chunk gs)))
      ∙ ap (finish encode model never_fails) e

  pub stream-failed :
      (gs : List Generated) (message : Text) (rest : List StreamItem) (s : ChatLogState)
      → stream_vertex_ai_sdk_response encode model never_fails
          (map chunk gs ++ (stream_failed false message ∷ rest))
          s
        ≡ (let p = after gs (begun s) in
            record p {
              log = failed_with (codes "stream_error") message p.log;
              written = p.written ++ event (error_json encode message);
            })
  unfolding stream_vertex_ai_sdk_response stream_items begun
  stream-failed gs message rest s =
      let (j, e) = stream_items-chunks gs (stream_failed false message ∷ rest) 0 (begun s) in
      ap (finish encode model never_fails) e ∙ ground arith
