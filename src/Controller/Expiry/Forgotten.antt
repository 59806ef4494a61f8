-- ===== src/Controller/Expiry/Forgotten.antt =====
-- What the queued function of `expireStickyDetach` does with the entry that it deals with.
use storage_provider_openneb.Prelude.{
  ◌≡◌, refl, String, Bool, true, false, ◌||◌, ◌∷◌, Option, none, some, ap, ◌∙◌,
}
use storage_provider_openneb.Prelude.Keys.{lookup-delete_self, string_key}
use storage_provider_openneb.Golang.Answer.{Answer, failed, answered}
use storage_provider_openneb.StickyAttachment
use storage_provider_openneb.StickyAttachment.{StickyState, StickyError, Entries}
use storage_provider_openneb.Controller.{
  Server, History, detach_called, logged, CallError, is_blank,
}
use storage_provider_openneb.Controller.Health.{clear_hotplug_guard_state}
use storage_provider_openneb.Controller.Drift.{clear_quarantine}
use storage_provider_openneb.Controller.Sticky.{clear_sticky}
use storage_provider_openneb.Controller.Publish.{resolve_size}
use storage_provider_openneb.Controller.Calls.{View, view}
use storage_provider_openneb.Controller.Calls.Volumes.{
  view-clear_quarantine, view-detach_metadata_drift_error,
}
use storage_provider_openneb.Controller.Expiry.{
  locate, after_expiry, detach_expired, drop_absent, unless_gone, expire_undesired, keep_desired,
  expire_unless_desired,
}

abbrev pub is_absent : Option StickyState → Bool
is_absent none = true
is_absent (some state) = false

-- The last act was a DetachVolume that failed.
abbrev pub detach_failed : History → Bool
detach_failed (detach_called v n (some e) ∷ h) = true
detach_failed h = false

module _ (state : StickyState) where
  -- No entry is kept for the volume, unless it could not be detached.
  abbrev pub forgotten : View → Bool
  forgotten (h, entries) =
      detach_failed h || is_absent (StickyAttachment.get entries state.volume_id)

  or_last : (a : Bool) → (a || true) ≡ true
  or_last true = refl
  or_last false = refl

  module _ (named : is_blank state.volume_id ≡ false) where
    forgotten-clear_sticky :
        (s : Server) → forgotten (view (clear_sticky state.volume_id s).1) ≡ true
    unfolding clear_sticky StickyAttachment.clear StickyAttachment.get
    forgotten-clear_sticky s = rw (named, lookup-delete_self state.volume_id s.sticky) (or_last _)

    forgotten-after_expiry :
        (e : Option CallError) (s : Server)
        → let s1 = logged (detach_called state.volume_id state.node_id e) s in
          forgotten (view (after_expiry state e s1).1) ≡ true
    forgotten-after_expiry (some e) s =
        let s1 = logged (detach_called state.volume_id state.node_id (some e)) s in
        ap forgotten (view-detach_metadata_drift_error state.volume_id state.node_id e.text s1)
    forgotten-after_expiry none s =
        let s1 = logged (detach_called state.volume_id state.node_id none) s in
        let s2 = (clear_hotplug_guard_state state.node_id s1).1 in
        let s3 = (clear_quarantine state.volume_id s2).1 in
        forgotten-clear_sticky (resolve_size state.volume_id s3).1

    forgotten-detach_expired : (s : Server) → forgotten (view (detach_expired state s).1) ≡ true
    forgotten-detach_expired s =
        forgotten-after_expiry (s.outside.detach s.history state.volume_id state.node_id) s

    forgotten-drop_absent :
        (e : Option StickyError) (s : Server)
        → forgotten (view s) ≡ true
        → forgotten (view (drop_absent state e s).1) ≡ true
    forgotten-drop_absent (some e) s h = h
    forgotten-drop_absent none s h = ap forgotten (view-clear_quarantine state.volume_id s) ∙ h

    forgotten-unless_gone :
        (o : Option (Answer String)) (s : Server)
        → forgotten (view (unless_gone state o s).1) ≡ true
    forgotten-unless_gone none s = forgotten-detach_expired s
    forgotten-unless_gone (some (answered d)) s = forgotten-detach_expired s
    forgotten-unless_gone (some (failed e)) s =
        let r = clear_sticky state.volume_id s in
        forgotten-drop_absent r.0 r.1 (forgotten-clear_sticky s)

    forgotten-expire_undesired : (s : Server) → forgotten (view (expire_undesired state s).1) ≡ true
    forgotten-expire_undesired s =
        let r = locate state.volume_id state.node_id s in forgotten-unless_gone r.0 r.1

    forgotten-keep_desired :
        (o : Option (Answer String)) (s : Server)
        → forgotten (view (keep_desired state o s).1) ≡ true
    forgotten-keep_desired none s = forgotten-expire_undesired s
    forgotten-keep_desired (some (failed e)) s = forgotten-expire_undesired s
    forgotten-keep_desired (some (answered d)) s = forgotten-clear_sticky s

    pub forgotten-unless_desired :
        (desired : Bool) (s : Server)
        → forgotten (view (expire_unless_desired state desired s).1) ≡ true
    forgotten-unless_desired false s = forgotten-expire_undesired s
    forgotten-unless_desired true s =
        let r = locate state.volume_id state.node_id s in forgotten-keep_desired r.0 r.1
