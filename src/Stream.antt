-- ===== src/Stream.antt =====
-- Proxying a streamed response (backend/internal/api/openai/handler.go: `streamUpstreamResponse`,
-- `extractUsageFromStreamBuffer`; anthropic.go: the same for messages). What the reader gives is a
-- list of chunks and then its end or an error; the writer may refuse a chunk. Texts are bytes here.
-- The logged state is any type, with the function that an event's payload is applied with.
pub mod Chunks
pub mod Preview
pub mod Whole
pub mod Keeps
use wcs_transfer.Base.{
  ℕ, zero, suc, ◌+◌, ◌-◌, Bool, true, false, ◌&&◌, Option, none, some, List, [], ◌∷◌, ◌++◌, ltb,
  ◌==◌, if◌then◌else◌, length, take, drop, Text, codes, is_empty, trim_space, cut_prefix,
}

abbrev pub max_logged_payload_bytes : ℕ
max_logged_payload_bytes = 65536

abbrev pub starts_with_newline : Text → Bool
starts_with_newline [] = false
starts_with_newline (a ∷ s) = a == 10

-- `bytes.Index(raw, "\n\n")`
unfoldable pub index_separator : Text → Option ℕ
index_separator [] = none
index_separator (a ∷ s) =
    let rest = index_separator s in
    if a == 10 && starts_with_newline s
    then some 0
    else elim rest [ none ↦ none | some i ↦ some (suc i) ]

abbrev pub prefix_head : ℕ → List Text → List Text
prefix_head a [] = (a ∷ []) ∷ []
prefix_head a (line ∷ lines) = (a ∷ line) ∷ lines

-- `bytes.Split(event, "\n")`
unfoldable pub split_lines : Text → List Text
split_lines [] = [] ∷ []
split_lines (a ∷ s) = if a == 10 then [] ∷ split_lines s else prefix_head a (split_lines s)

-- The payload of a line `data: …`, unless it is empty.
unfoldable pub data_payload : Text → Option Text
unfolding trim_space cut_prefix
data_payload line = elim (cut_prefix (codes "data:") (trim_space line)) [
  | none ↦ none
  | some rest ↦ let payload = trim_space rest in if is_empty payload then none else some payload
]

-- `preview` and `truncated` after a chunk, for a preview of at most `limit` bytes.
unfoldable pub preview_chunk : ℕ → Text → Text × Bool → Text × Bool
preview_chunk limit chunk (preview, truncated) =
    if ltb (length preview) limit
    then (let remaining = limit - length preview in
        if ltb remaining (length chunk)
        then (preview ++ take remaining chunk, true)
        else (preview ++ chunk, truncated))
    else (preview, true)

pub record Proxied (S : Type 0) : Type 0 where
  pub written : Text
  pub preview : Text
  pub truncated : Bool
  pub buffer : Text
  pub state : S
  pub stream_error : Option Text

module _ {S : Type 0} (skips : Text → Bool) (apply : Text → S → S) where
  -- A line of an event. Chat completions skip the payload that ends a stream.
  unfoldable pub apply_line : Text → S → S
  apply_line line s = elim (data_payload line) [
    | none ↦ s
    | some payload ↦ if skips payload then s else apply payload s
  ]

  unfoldable pub apply_lines : List Text → S → S
  unfolding apply_line
  apply_lines [] s = s
  apply_lines (line ∷ lines) s = apply_lines lines (apply_line line s)

  unfoldable pub apply_event : Text → S → S
  unfolding split_lines apply_lines
  apply_event event s = apply_lines (split_lines event) s

  -- The loop over the whole events in the buffer. Each round takes at least two bytes off, so that
  -- the number of bytes is fuel enough.
  unfoldable pub extract_loop : ℕ → Text → S → Text × S
  extract_loop zero buffer s = (buffer, s)
  extract_loop (suc fuel) buffer s = elim (index_separator buffer) [
    | none ↦ (buffer, s)
    | some i ↦ extract_loop fuel (drop (i + 2) buffer) (apply_event (take i buffer) s)
  ]

  unfoldable pub extract_usage_from_stream_buffer : Text → S → Text × S
  unfolding extract_loop
  extract_usage_from_stream_buffer buffer s = extract_loop (length buffer) buffer s

  -- One turn of the loop with `n > 0`, after the write.
  unfoldable pub proxy_chunk : Text → Proxied S → Proxied S
  proxy_chunk chunk p =
      let (preview, truncated) =
        preview_chunk max_logged_payload_bytes chunk (p.preview, p.truncated) in
      let (buffer, state) = extract_usage_from_stream_buffer (p.buffer ++ chunk) p.state in
      record {
        written = p.written ++ chunk;
        preview = preview;
        truncated = truncated;
        buffer = buffer;
        state = state;
        stream_error = p.stream_error;
      }

  -- The loop. A read of no bytes does nothing; a write that fails ends it.
  unfoldable pub proxy_chunks :
      (ℕ → Option Text) → ℕ → List Text → Option Text → Proxied S → Proxied S
  proxy_chunks write_error i [] read_error p = record p { stream_error = read_error }
  proxy_chunks write_error i ([] ∷ chunks) read_error p =
      proxy_chunks write_error (i + 1) chunks read_error p
  proxy_chunks write_error i ((b ∷ chunk) ∷ chunks) read_error p = elim (write_error i) [
    | some error ↦ record p { stream_error = some error }
    | none ↦ proxy_chunks write_error (i + 1) chunks read_error (proxy_chunk (b ∷ chunk) p)
  ]

  unfoldable pub stream_upstream_response :
      (ℕ → Option Text) → List Text → Option Text → S → Proxied S
  stream_upstream_response write_error chunks read_error s =
      proxy_chunks write_error 0 chunks read_error (record {
        written = [];
        preview = [];
        truncated = false;
        buffer = [];
        state = s;
        stream_error = none;
      })
