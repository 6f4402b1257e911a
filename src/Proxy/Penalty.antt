-- ===== src/Proxy/Penalty.antt =====
-- The cooldowns that the loop over the attempts gives to keys
-- (backend/internal/api/openai/handler.go).
use wcs_transfer.Base.{◌||◌, if◌then◌else◌, ℤ, pos, eqb_ℤ, Text, codes}
use wcs_transfer.Entity.{Duration}
use wcs_transfer.Proxy.{
  key_cooldown_transient, key_cooldown_rate_limited, key_cooldown_unauthorized,
}

-- The cooldown that a status stands for.
abbrev pub status_cooldown : ℤ → Duration
status_cooldown status =
    if eqb_ℤ status (pos 401) || eqb_ℤ status (pos 403)
    then key_cooldown_unauthorized
    else (if eqb_ℤ status (pos 429) then key_cooldown_rate_limited else key_cooldown_transient)

-- The reason that is noted with it.
abbrev status_reason : ℤ → Text
status_reason status =
    if eqb_ℤ status (pos 401) || eqb_ℤ status (pos 403)
    then codes "auth_error"
    else (if eqb_ℤ status (pos 429) then codes "rate_limited" else codes "upstream_error")
