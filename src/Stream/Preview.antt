-- ===== src/Stream/Preview.antt =====
-- The preview of a streamed response that the request log keeps
-- (backend/internal/api/openai/handler.go: `streamUpstreamResponse`).
use wcs_transfer.Base.{
  ℕ, ◌-◌, ◌≤◌, ◌<◌, ◌≡◌, ap, inl, inr, Bool, true, false, ◌++◌, arith, ltb, Bool-cases, length,
  take, length-append, length-take, take-append, take-append_left, take_all, Text,
}
use wcs_transfer.Stream.{preview_chunk}

-- The preview and its mark after the bytes `all`.
abbrev pub preview_of : ℕ → Text → Text × Bool
preview_of limit all = (take limit all, ltb limit (length all))

preview-room :
    (limit : ℕ) (all chunk : Text)
    → length all < limit
    → preview_chunk limit chunk (all, ltb limit (length all)) ≡ preview_of limit (all ++ chunk)
unfolding preview_chunk
preview-room limit all chunk fits = elim (Bool-cases (ltb (limit - length all) (length chunk))) [
  | inl more ↦
      (let room : ltb (length all) limit ≡ true = ground arith in
        let e : true ≡ ltb limit (length (all ++ chunk)) =
          ground (arith, more, length-append all chunk) in
        rw (take-append limit all chunk, take_all limit all (omega arith), room, more)
          (ap (λ b. (all ++ take (limit - length all) chunk, b)) e))
  | inr whole ↦
      (let room : ltb (length all) limit ≡ true = ground arith in
        let e : ltb limit (length all) ≡ ltb limit (length (all ++ chunk)) =
          ground (arith, whole, length-append all chunk) in
        let c : take limit (all ++ chunk) ≡ all ++ chunk =
          take_all limit (all ++ chunk) (ground (arith, whole, length-append all chunk)) in
        rw (c, room, whole) (ap (λ b. (all ++ chunk, b)) e))
]

preview-full :
    (limit : ℕ) (all chunk : Text)
    → limit ≤ length all
    → 0 < length chunk
    → preview_chunk limit chunk (preview_of limit all) ≡ preview_of limit (all ++ chunk)
unfolding preview_chunk
preview-full limit all chunk full some_bytes =
    let shut : ltb (length (take limit all)) limit ≡ false =
      ground (arith, length-take limit all) in
    let e : true ≡ ltb limit (length (all ++ chunk)) = ground (arith, length-append all chunk) in
    rw (take-append_left limit all chunk full, shut) (ap (λ b. (take limit all, b)) e)

pub preview_chunk_lem :
    (limit : ℕ) (all chunk : Text)
    → 0 < length chunk
    → preview_chunk limit chunk (preview_of limit all) ≡ preview_of limit (all ++ chunk)
preview_chunk_lem limit all chunk some_bytes = elim (Bool-cases (ltb (length all) limit)) [
  | inl fits ↦
      rw (take_all limit all (ground (arith, fits)))
        (preview-room limit all chunk (ground (arith, fits)))
  | inr full ↦ preview-full limit all chunk (ground (arith, full)) some_bytes
]
