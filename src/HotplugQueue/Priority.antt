-- ===== src/HotplugQueue/Priority.antt =====
-- `effectivePriority` of pkg/csi/driver/hotplug_queue.go: the base of the priority less a boost for
-- each `ageBoost` that the request has waited.
use storage_provider_openneb.Prelude.{ℕ, ◌/◌, ◌-◌, ◌≤◌, ◌<◌, ◌≡◌, refl, arith, if◌then◌else◌}
use storage_provider_openneb.Prelude.Int.{
  ℤ, pos, ltb_ℤ, leb_ℤ, ◌-ℤ◌, ◌/ℤ◌, wrap64, max_int64, wrap64-Int64, pos_part,
}
use storage_provider_openneb.Golang.Clock.{Time, Duration, sub}
use storage_provider_openneb.HotplugQueue.Request.{Priority, critical, normal, background, Request}

abbrev pub base_priority : Priority → ℤ
base_priority critical = pos 0
base_priority normal = pos 1
base_priority background = pos 2

-- `boosts` after the cut, from `now.Sub(req.enqueuedAt)`.
abbrev pub boosts : ℤ → Duration → Duration → ℤ
boosts base waited age_boost =
    let n = wrap64 (waited /ℤ age_boost) in if ltb_ℤ base n then base else n

unfoldable pub effective_priority : Duration → Time → Request → ℤ
effective_priority age_boost now req =
    let base = base_priority req.priority in
    if leb_ℤ age_boost (pos 0)
    then base
    else wrap64 (base -ℤ boosts base (sub now req.enqueued_at) age_boost)

sub-pos : (now t : Time) → t ≤ now → now - t ≤ max_int64 → sub now t ≡ pos (now - t)
unfolding sub
sub-pos now t h m = ground arith

div-le : (w b : ℕ) → 0 < b → w / b ≤ w
div-le w b h = grind arith

wrap64-div : (w b : ℕ) → 0 < b → w ≤ max_int64 → wrap64 (pos w /ℤ pos b) ≡ pos (w / b)
unfolding ◌/ℤ◌
wrap64-div w b h m = wrap64-Int64 (pos (w / b)) (omega (arith, div-le w b h))

boosted :
    (base n : ℕ)
    → base ≤ 2
    → wrap64 (pos base -ℤ (if ltb_ℤ (pos base) (pos n) then pos base else pos n)) ≡ pos (base - n)
unfolding wrap64 ◌-ℤ◌
boosted base n h = ground arith

boosted_score :
    (base w b : ℕ)
    → base ≤ 2
    → 0 < b
    → w ≤ max_int64
    → wrap64 (pos base -ℤ boosts (pos base) (pos w) (pos b)) ≡ pos (base - w / b)
boosted_score base w b hs hb hm = rw (wrap64-div w b hb hm) (boosted base (w / b) hs)

base_priority-pos : (p : Priority) → (n : ℕ) × (n ≤ 2) × (base_priority p ≡ pos n)
base_priority-pos critical = (0, omega arith, refl)
base_priority-pos normal = (1, omega arith, refl)
base_priority-pos background = (2, omega arith, refl)

-- With ageing on, a request that was enqueued by now, and whose wait fits an int64, scores its base
-- less one for each full `ageBoost` that it has waited, and never less than 0.
pub effective_priority-eq-sub :
    (b : ℕ) (now : Time) (req : Request)
    → 0 < b
    → req.enqueued_at ≤ now
    → now - req.enqueued_at ≤ max_int64
    → effective_priority (pos b) now req
      ≡ pos (pos_part (base_priority req.priority) - (now - req.enqueued_at) / b)
unfolding effective_priority
effective_priority-eq-sub b now req hb hn hm =
    let (n, small, e) = base_priority-pos req.priority in
    rw (e, sub-pos now req.enqueued_at hn hm)
      (ground (arith, boosted_score n (now - req.enqueued_at) b small hb hm))
