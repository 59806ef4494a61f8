-- ===== src/Controller/Expiry/Settled.antt =====
-- What the queued function of `expireStickyDetach` does with an entry whose grace period is kept.
use storage_provider_openneb.Prelude.{Bool, true, false, ◌||◌, Option, none, some}
use storage_provider_openneb.Golang.Answer.{Answer}
use storage_provider_openneb.Golang.Clock.{after}
use storage_provider_openneb.StickyAttachment
use storage_provider_openneb.StickyAttachment.{StickyState, StickyError}
use storage_provider_openneb.HotplugGuard.{CooldownState}
use storage_provider_openneb.Controller.{Server, clock_read, logged}
use storage_provider_openneb.Controller.Health.{hotplug_cooldown_state}

-- Whether the node must be left alone for now.
abbrev pub is_cooling : Option CooldownState → Bool
is_cooling none = false
is_cooling (some c) = true

-- The reasons to wait: the grace period goes on, or the node cools down or is paused.
abbrev pub must_wait : StickyState → Server → Bool
must_wait state s =
    after state.expires_at (s.outside.now s.history)
    || is_cooling (hotplug_cooldown_state state.node_id (logged clock_read s)).0
