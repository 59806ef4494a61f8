-- ===== src/Controller/Sticky/Bounds.antt =====
-- The length of a grace period.
use storage_provider_openneb.Prelude.{◌≡◌, ◌⊎◌, Option, none, some, arith}
use storage_provider_openneb.Prelude.Int.{ℤ, pos, ◌≤ℤ◌}
use storage_provider_openneb.Controller.{Settings}
use storage_provider_openneb.Controller.Health.{positive_setting}
use storage_provider_openneb.Controller.Sticky.{effective_detach_grace_seconds}

positive_setting-pos : (o : Option ℤ) (d : ℤ) → pos 1 ≤ℤ d → pos 1 ≤ℤ positive_setting o d
positive_setting-pos none d h = h
positive_setting-pos (some a) d h = ground arith

-- Whatever is configured and asked for, a grace period lasts at least a second and at most the
-- configured maximum, and it lasts 30 seconds or more unless that maximum is shorter.
effective_detach_grace_seconds_bounds :
    (c : Settings) (hint : ℤ)
    → let most = positive_setting c.detach_grace_max_seconds (pos 300) in
      let grace = effective_detach_grace_seconds c hint in
      (pos 1 ≤ℤ grace) × (grace ≤ℤ most) × ((pos 30 ≤ℤ grace) ⊎ (grace ≡ most))
unfolding effective_detach_grace_seconds
effective_detach_grace_seconds_bounds c hint =
    let p = positive_setting-pos c.detach_grace_max_seconds (pos 300) (omega arith) in
    (ground arith, ground arith, ground arith)
