-- ===== src/Stream/Whole.antt =====
-- A streamed response that is proxied without a failing write: what reaches the client, what the
-- log keeps and what is read from it (backend/internal/api/openai/handler.go and anthropic.go).
use wcs_transfer.Base.{
  ℕ, ◌+◌, ◌≡◌, refl, sym, ap, ◌∙◌, Bool, Option, none, List, [], ◌∷◌, ◌++◌, arith, Text,
}
use wcs_transfer.Stream.{
  Proxied, max_logged_payload_bytes, preview_chunk, proxy_chunk, proxy_chunks,
  stream_upstream_response,
}
use wcs_transfer.Stream.Chunks.{extract, extract-append, extract-rest, index_separator-nil}
use mathlib.Core.List.{append-nil, append_assoc}
use wcs_transfer.Stream.Preview.{preview_of, preview_chunk_lem}

abbrev pub join : List Text → Text
join [] = []
join (chunk ∷ chunks) = chunk ++ join chunks

module _ {S : Type 0} (skips : Text → Bool) (apply : Text → S → S) where
  -- What the loop has done after the bytes `all`, from the state `s`.
  abbrev pub Sent : S → Text → Proxied S → Type 0
  Sent s all p =
      (p.written ≡ all)
      × ((p.buffer, p.state) ≡ extract skips apply all s)
      × ((p.preview, p.truncated) ≡ preview_of max_logged_payload_bytes all)

  proxy_chunk-Sent :
      (s : S) (all : Text) (b : ℕ) (chunk : Text) (p : Proxied S)
      → Sent s all p
      → Sent s (all ++ (b ∷ chunk)) (proxy_chunk skips apply (b ∷ chunk) p)
  unfolding proxy_chunk
  proxy_chunk-Sent s all b chunk p (w, e, v) =
      let c = b ∷ chunk in
      let next : extract skips apply (p.buffer ++ c) p.state ≡ extract skips apply (all ++ c) s =
        ap (λ (q : Text × S). extract skips apply (q.0 ++ c) q.1) e
        ∙ sym (extract-append skips apply all c s) in
      (
        ap (λ t. t ++ c) w,
        next,
        ap (preview_chunk max_logged_payload_bytes c) v
            ∙ preview_chunk_lem max_logged_payload_bytes all c (omega arith),
      )

  -- The rest of the loop, when no write fails.
  proxy_chunks-Sent :
      (write_error : ℕ → Option Text) (i : ℕ) (chunks : List Text) (read_error : Option Text)
      (s : S) (all : Text) (p : Proxied S)
      → ((k : ℕ) → write_error k ≡ none)
      → Sent s all p
      → Sent s (all ++ join chunks) (proxy_chunks skips apply write_error i chunks read_error p)
        × ((proxy_chunks skips apply write_error i chunks read_error p).stream_error ≡ read_error)
  unfolding proxy_chunks
  proxy_chunks-Sent write_error i [] read_error s all p fine sent = rw (append-nil all) (sent, refl)
  proxy_chunks-Sent write_error i ([] ∷ chunks) read_error s all p fine sent =
      proxy_chunks-Sent write_error (i + 1) chunks read_error s all p fine sent
  proxy_chunks-Sent write_error i ((b ∷ chunk) ∷ chunks) read_error s all p fine sent =
      rw (fine i, proxy_chunks)
        (rw (← append_assoc all (b ∷ chunk) (join chunks)) (
          proxy_chunks-Sent write_error (i + 1) chunks read_error s (all ++ (b ∷ chunk))
            (proxy_chunk skips apply (b ∷ chunk) p) fine (proxy_chunk-Sent s all b chunk p sent)))

  -- As long as no write fails, a streamed response is passed on whole: the client has got the bytes
  -- of all chunks, the log has the first 65536 of them and says whether there were more, and the
  -- usage and the unread rest are what the bytes give when they are read at once, wherever the
  -- stream was cut. The error logged is the one that reading ended with, if it did.
  pub stream_upstream_response-Sent :
      (write_error : ℕ → Option Text) (chunks : List Text) (read_error : Option Text) (s : S)
      → ((k : ℕ) → write_error k ≡ none)
      → Sent s (join chunks) (stream_upstream_response skips apply write_error chunks read_error s)
        × ((stream_upstream_response skips apply write_error chunks read_error s).stream_error
            ≡ read_error)
  unfolding stream_upstream_response
  stream_upstream_response-Sent write_error chunks read_error s fine =
      let empty : (◌≡◌ {A = Text × S} ([], s) (extract skips apply [] s)) =
        sym (extract-rest skips apply [] s index_separator-nil) in
      proxy_chunks-Sent write_error 0 chunks read_error s [] _ fine (refl, empty, refl)
