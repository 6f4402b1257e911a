-- ===== src/Stream/Keeps.antt =====
-- What every event keeps, a whole streamed response keeps (backend/internal/api/openai/handler.go).
use wcs_transfer.Base.{
  ℕ, zero, suc, ◌+◌, inl, inr, Bool, Option, List, [], ◌∷◌, ◌++◌, Bool-cases, Option-cases, length,
  take, drop, Text,
}
use wcs_transfer.Stream.{
  Proxied, data_payload, index_separator, split_lines, apply_line, apply_lines, apply_event,
  extract_loop, extract_usage_from_stream_buffer, proxy_chunk, proxy_chunks,
  stream_upstream_response,
}

module _ {S : Type 0} (P : S → Type 0) (skips : Text → Bool) (apply : Text → S → S)
    (keeps : (payload : Text) (s : S) → P s → P (apply payload s)) where
  apply_line-keeps : (line : Text) (s : S) → P s → P (apply_line skips apply line s)
  unfolding apply_line
  apply_line-keeps line s h = elim (Option-cases (data_payload line)) [
    | inl e ↦ rw (e, apply_line) h
    | inr (payload, e) ↦
        rw (e, apply_line)
          (elim (Bool-cases (skips payload)) [
            | inl skip ↦ rw skip h
            | inr use_it ↦ rw use_it (keeps payload s h)
          ])
  ]

  apply_lines-keeps : (lines : List Text) (s : S) → P s → P (apply_lines skips apply lines s)
  unfolding apply_lines
  apply_lines-keeps [] s h = h
  apply_lines-keeps (line ∷ lines) s h =
      apply_lines-keeps lines (apply_line skips apply line s) (apply_line-keeps line s h)

  extract_loop-keeps :
      (fuel : ℕ) (buffer : Text) (s : S) → P s → P (extract_loop skips apply fuel buffer s).1
  unfolding extract_loop apply_event
  extract_loop-keeps zero buffer s h = h
  extract_loop-keeps (suc fuel) buffer s h = elim (Option-cases (index_separator buffer)) [
    | inl e ↦ rw (e, extract_loop) h
    | inr (i, e) ↦
        rw (e, extract_loop)
          (extract_loop-keeps fuel (drop (i + 2) buffer) (apply_event skips apply (take i buffer) s)
            (apply_lines-keeps (split_lines (take i buffer)) s h))
  ]

  proxy_chunks-keeps :
      (write_error : ℕ → Option Text) (i : ℕ) (chunks : List Text) (read_error : Option Text)
      (p : Proxied S)
      → P p.state
      → P (proxy_chunks skips apply write_error i chunks read_error p).state
  unfolding proxy_chunks proxy_chunk extract_usage_from_stream_buffer
  proxy_chunks-keeps write_error i [] read_error p h = h
  proxy_chunks-keeps write_error i ([] ∷ chunks) read_error p h =
      proxy_chunks-keeps write_error (i + 1) chunks read_error p h
  proxy_chunks-keeps write_error i ((b ∷ chunk) ∷ chunks) read_error p h =
      elim (Option-cases (write_error i)) [
        | inl e ↦
            rw (e, proxy_chunks)
              (proxy_chunks-keeps write_error (i + 1) chunks read_error
                (proxy_chunk skips apply (b ∷ chunk) p)
                (extract_loop-keeps (length (p.buffer ++ b ∷ chunk)) (p.buffer ++ b ∷ chunk) p.state
                  h))
        | inr (error, e) ↦ rw (e, proxy_chunks) h
      ]

  pub stream_upstream_response-keeps :
      (write_error : ℕ → Option Text) (chunks : List Text) (read_error : Option Text) (s : S)
      → P s
      → P (stream_upstream_response skips apply write_error chunks read_error s).state
  unfolding stream_upstream_response
  stream_upstream_response-keeps write_error chunks read_error s h =
      proxy_chunks-keeps write_error 0 chunks read_error _ h
