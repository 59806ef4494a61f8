-- ===== src/Controller/Publish/Located.antt =====
-- What stands behind a response of `ControllerPublishVolume`: the queued function.
use storage_provider_openneb.Prelude.{
  ◌≡◌, refl, String, str_eq, Bool, true, false, ◌&&◌, ◌||◌, [], ◌∷◌, Option, none, some, eq_refl,
  Bool-cases, inl, inr, ap, ◌∙◌,
}
use storage_provider_openneb.Prelude.Int.{ℤ, eq_ℤ}
use storage_provider_openneb.Golang.Answer.{Answer, failed, answered}
use storage_provider_openneb.StickyAttachment.{StickyState, StickyError}
use storage_provider_openneb.HotplugGuard.{CooldownState}
use storage_provider_openneb.Controller.{
  Server, History, located, node_looked_up, desire_checked, detach_called, logged, CallError,
}
use storage_provider_openneb.Controller.Health.{hotplug_cooldown_state}
use storage_provider_openneb.Controller.Drift.{clear_quarantine}
use storage_provider_openneb.Controller.Artifacts.{clear_artifacts_for_volume}
use storage_provider_openneb.Controller.Sticky.{
  clear_sticky, clear_sticky_reuse_state, annotate_for_volume, same_text, is_true, found_id,
}
use storage_provider_openneb.Controller.Moves.{
  Reuse, not_reused, reuse_failed, reused, reused_if_cleared, gone_if_cleared, reuse_here,
  after_detach, unless_absent, leave_node, move_unless_cooling, move_from, reuse_entry,
}
use storage_provider_openneb.Controller.Queued.{Returned, done, fails}
use storage_provider_openneb.Controller.Publish.{
  PublishRequest, Published, publish_context, publish_attached,
}
use storage_provider_openneb.Controller.Publish.Exclusive.{notable-publish_context}
use storage_provider_openneb.Controller.Unpublish.Explained.{eq_self}
use storage_provider_openneb.Controller.Calls.{notable}
use storage_provider_openneb.Controller.Calls.Volumes.{
  view-clear_quarantine, view-clear_artifacts_for_volume, notable-clear_sticky,
  notable-clear_sticky_reuse_state, view-annotate_for_volume,
}

module _ (id node_id : ℤ) where
  -- The volume was found on the node, as this device.
  abbrev pub seen : String → History → Bool
  seen device [] = false
  seen device (located w n (answered t) ∷ h) =
      ((eq_ℤ w id && eq_ℤ n node_id) && str_eq t device) || seen device h
  seen device (e ∷ h) = seen device h

  pub seen_now :
      (device : String) (h : History)
      → seen device (located id node_id (answered device) ∷ h) ≡ true
  seen_now device h = rw (eq_self id, eq_self node_id, eq_refl device) refl

  -- What the function returns: a device is one that was seen.
  abbrev pub is_found : Returned Published → History → Bool
  is_found (done p) h = seen p.device h
  is_found (fails c) h = true

  abbrev pub is_found_reused : Reuse → History → Bool
  is_found_reused (reused device) h = seen device h
  is_found_reused not_reused h = true
  is_found_reused (reuse_failed c) h = true

  pub seen-publish_context :
      (req : PublishRequest) (device : String) (s : Server)
      → seen device (notable s.history) ≡ true
      → let r = publish_context req device s in seen r.0.device (notable r.1.history) ≡ true
  unfolding publish_context
  seen-publish_context req device s h = ap (seen device) (notable-publish_context req device s) ∙ h

  pub seen-publish_attached :
      (req : PublishRequest) (device : String) (s : Server)
      → seen device (notable s.history) ≡ true
      → let r = publish_attached req device s in seen r.0.device (notable r.1.history) ≡ true
  unfolding publish_attached
  seen-publish_attached req device s h =
      let s1 = (clear_quarantine req.volume s).1 in
      let s2 = (clear_artifacts_for_volume req.volume s1).1 in
      let s3 = (clear_sticky_reuse_state req.volume req.node s2).1 in
      let s4 = (annotate_for_volume req.volume req.node s3).1 in
      seen-publish_context req device s4 (
        ap (seen device) (
          ap (λ v. v.0) (view-annotate_for_volume req.volume req.node s3)
          ∙ notable-clear_sticky_reuse_state req.volume req.node s2
          ∙ ap (λ v. v.0) (view-clear_artifacts_for_volume req.volume s1)
          ∙ ap (λ v. v.0) (view-clear_quarantine req.volume s))
        ∙ h)

  -- A volume that leaves its old node is not reused.
  gone-is_found :
      (o : Option StickyError) (h : History) → is_found_reused (gone_if_cleared o) h ≡ true
  gone-is_found none h = refl
  gone-is_found (some e) h = refl

  after_detach-is_found :
      (volume old : String) (o : Option CallError) (s : Server)
      → let r = after_detach volume old o s in is_found_reused r.0 (notable r.1.history) ≡ true
  after_detach-is_found volume old (some e) s = refl
  after_detach-is_found volume old none s =
      let r = after_detach volume old none s in gone-is_found _ (notable r.1.history)

  unless_absent-is_found :
      (volume old : String) (there : Answer String) (s : Server)
      → let r = unless_absent volume old there s in is_found_reused r.0 (notable r.1.history) ≡ true
  unless_absent-is_found volume old (answered d) s =
      let e = s.outside.detach s.history volume old in
      after_detach-is_found volume old e (logged (detach_called volume old e) s)
  unless_absent-is_found volume old (failed e) s =
      let r = clear_sticky volume s in gone-is_found r.0 (notable r.1.history)

  leave_node-is_found :
      (volume old : String) (w : ℤ) (o : Option ℤ) (s : Server)
      → let r = leave_node volume old w o s in is_found_reused r.0 (notable r.1.history) ≡ true
  leave_node-is_found volume old w none s =
      let e = s.outside.detach s.history volume old in
      after_detach-is_found volume old e (logged (detach_called volume old e) s)
  leave_node-is_found volume old w (some n) s =
      let there = s.outside.volume_in_node s.history w n in
      unless_absent-is_found volume old there (logged (located w n there) s)

  move_unless_cooling-is_found :
      (volume old : String) (w : ℤ) (c : Option CooldownState) (s : Server)
      → let r = move_unless_cooling volume old w c s in
        is_found_reused r.0 (notable r.1.history) ≡ true
  move_unless_cooling-is_found volume old w (some c) s = refl
  move_unless_cooling-is_found volume old w none s =
      let d = s.outside.desired_on_node s.history volume old in
      let s1 = logged (desire_checked volume old d) s in
      let found = s1.outside.node_exists s1.history old in
      elim (Bool-cases (is_true d)) [
        | inl wanted ↦ rw wanted refl
        | inr unwanted ↦ rw unwanted (
            leave_node-is_found volume old w (found_id found)
              (logged (node_looked_up old found) s1))
      ]

  reused-is_found :
      (device : String) (o : Option StickyError) (h : History)
      → seen device h ≡ true
      → is_found_reused (reused_if_cleared device o) h ≡ true
  reused-is_found device none h eq = eq
  reused-is_found device (some e) h eq = refl

  reuse_here-is_found :
      (volume : String) (there : Answer String) (s : Server)
      → let r = reuse_here volume there (logged (located id node_id there) s) in
        is_found_reused r.0 (notable r.1.history) ≡ true
  reuse_here-is_found volume (failed e) s = refl
  reuse_here-is_found volume (answered device) s =
      let s1 = logged (located id node_id (answered device)) s in
      let r = clear_sticky volume s1 in
      reused-is_found device r.0 (notable r.1.history)
        (ap (seen device) (notable-clear_sticky volume s1) ∙ seen_now device (notable s.history))

  pub reuse_entry-is_found :
      (entry : Option StickyState) (volume node : String) (s : Server)
      → let r = reuse_entry entry volume node id node_id s in
        is_found_reused r.0 (notable r.1.history) ≡ true
  unfolding reuse_entry move_from
  reuse_entry-is_found none volume node s = refl
  reuse_entry-is_found (some state) volume node s =
      elim (Bool-cases (same_text state.node_id node)) [
        | inl same ↦
            rw same (reuse_here-is_found volume (s.outside.volume_in_node s.history id node_id) s)
        | inr other ↦
            let r = hotplug_cooldown_state state.node_id s in
            rw other (move_unless_cooling-is_found volume state.node_id id r.0 r.1)
      ]
