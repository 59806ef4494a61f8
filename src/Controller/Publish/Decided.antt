-- ===== src/Controller/Publish/Decided.antt =====
-- What stands behind a response of `ControllerPublishVolume`: the queue's check.
use storage_provider_openneb.Prelude.{
  ◌≡◌, refl, String, str_eq, Bool, true, false, ◌&&◌, ◌||◌, ◌∷◌, Option, none, some, eq_refl,
  Bool-cases, inl, inr, ap, ◌∙◌, if◌then◌else◌,
}
use storage_provider_openneb.Prelude.Int.{ℤ, negsuc, eq_ℤ}
use storage_provider_openneb.Golang.Answer.{Answer, failed, answered}
use storage_provider_openneb.HotplugGuard.{CooldownState}
use storage_provider_openneb.HotplugQueue.Dispatch.{Decision, valid, completed, is_stale, is_paused}
use storage_provider_openneb.Controller.{
  Server, History, located, node_looked_up, volume_looked_up, queued, merged, logged, is_blank,
}
use storage_provider_openneb.Controller.Health.{hotplug_cooldown_state}
use storage_provider_openneb.Controller.Queued.{
  attach_request_stale, judge_operation, decide_unless_cooling, decide_node, decide_volume,
  validate_queue_request, attach,
}
use storage_provider_openneb.Controller.Publish.{PublishRequest}
use storage_provider_openneb.Controller.Unpublish.Explained.{looked_up, eq_self}
use storage_provider_openneb.Controller.Calls.{notable}
use storage_provider_openneb.Controller.Calls.Nodes.{view-hotplug_cooldown_state}

-- The queue's check found the volume on the node, both looked up by their names; or the request was
-- merged into another one that succeeded.
abbrev pub skipped : PublishRequest → ℤ → ℤ → History → Bool
skipped req id node_id (located w n (answered d) ∷ h) =
    looked_up req.volume req.node id node_id w n h
skipped req id node_id (queued n o v merged ∷ h) = str_eq n req.node && str_eq v req.volume
skipped req id node_id h = false

module _ (req : PublishRequest) (id node_id : ℤ) where
  abbrev pub is_decided : Decision → History → Bool
  is_decided completed h = skipped req id node_id h
  is_decided valid h = true
  is_decided is_stale h = true
  is_decided is_paused h = true

  stale_or_valid-is_decided :
      (b : Bool) (h : History) → is_decided (if b then is_stale else valid) h ≡ true
  stale_or_valid-is_decided true h = refl
  stale_or_valid-is_decided false h = refl

  judge-is_decided :
      (there : Answer String) (w n : ℤ) (s : Server)
      → looked_up req.volume req.node id node_id w n (notable s.history) ≡ true
      → let r = judge_operation attach there req.node req.volume (logged (located w n there) s) in
        is_decided r.0 (notable r.1.history) ≡ true
  judge-is_decided (answered device) w n s h = h
  judge-is_decided (failed e) w n s h =
      let r = attach_request_stale req.node req.volume (logged (located w n (failed e)) s) in
      stale_or_valid-is_decided r.0 (notable r.1.history)

  decide_unless_cooling-is_decided :
      (c : Option CooldownState) (w n : ℤ) (s : Server)
      → looked_up req.volume req.node id node_id w n (notable s.history) ≡ true
      → let r = decide_unless_cooling req.node attach req.volume w n c s in
        is_decided r.0 (notable r.1.history) ≡ true
  decide_unless_cooling-is_decided (some c) w n s h = refl
  decide_unless_cooling-is_decided none w n s h =
      judge-is_decided (s.outside.volume_in_node s.history w n) w n s h

  decide_node-is_decided :
      (found : Answer ℤ) (w : ℤ) (s : Server)
      → let r = decide_node req.node attach req.volume w found (
          logged
            (node_looked_up req.node found)
            (logged (volume_looked_up req.volume (answered w)) s)) in
        is_decided r.0 (notable r.1.history) ≡ true
  decide_node-is_decided (failed e) w s = refl
  decide_node-is_decided (answered n) w s = elim (Bool-cases (eq_ℤ n (negsuc 0))) [
    | inl gone ↦ rw gone refl
    | inr there ↦
        let s1 =
          logged (node_looked_up req.node (answered n))
            (logged (volume_looked_up req.volume (answered w)) s) in
        let r = hotplug_cooldown_state req.node s1 in
        rw there (
          decide_unless_cooling-is_decided r.0 w n r.1 (
            ap (λ v. looked_up req.volume req.node id node_id w n v.0)
              (view-hotplug_cooldown_state req.node s1)
            ∙ rw (eq_refl req.node, eq_self n, eq_refl req.volume, eq_self w) refl))
  ]

  decide_volume-is_decided :
      (found : Answer ℤ) (s : Server)
      → let r =
          decide_volume req.node attach req.volume found
            (logged (volume_looked_up req.volume found) s) in
        is_decided r.0 (notable r.1.history) ≡ true
  decide_volume-is_decided (failed e) s = refl
  decide_volume-is_decided (answered w) s = elim (Bool-cases (eq_ℤ w (negsuc 0))) [
    | inl gone ↦ rw gone refl
    | inr there ↦
        let s1 = logged (volume_looked_up req.volume (answered w)) s in
        rw there (decide_node-is_decided (s1.outside.node_exists s1.history req.node) w s)
  ]

  pub validate-is_decided :
      (s : Server)
      → let r = validate_queue_request req.node attach req.volume s in
        is_decided r.0 (notable r.1.history) ≡ true
  unfolding validate_queue_request
  validate-is_decided s = elim (Bool-cases (is_blank req.node || is_blank req.volume)) [
    | inl blank ↦ rw blank refl
    | inr known ↦
        rw known (decide_volume-is_decided (s.outside.volume_exists s.history req.volume) s)
  ]
