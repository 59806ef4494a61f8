-- ===== src/Controller/Publish/Grounded.antt =====
-- What stands behind a response of `ControllerPublishVolume`: the queue and the handler.
use storage_provider_openneb.Prelude.{
  ◌≡◌, refl, String, Bool, true, false, Option, none, some, eq_refl, Bool-cases, inl, inr,
}
use storage_provider_openneb.Prelude.Int.{ℤ}
use storage_provider_openneb.Golang.Answer.{Answer, failed, answered}
use storage_provider_openneb.Golang.Text.{trim_space}
use storage_provider_openneb.Golang.Cases.{to_lower}
use storage_provider_openneb.HotplugGuard.{CooldownState}
use storage_provider_openneb.HotplugQueue.Dispatch.{Decision, valid, completed, is_stale, is_paused}
use storage_provider_openneb.Controller.{
  Server, History, located, queued, QueueReply, runs, gives_up, merged, merged_failed, logged,
  on_by_default,
}
use storage_provider_openneb.Controller.Health.{hotplug_cooldown_state}
use storage_provider_openneb.Controller.Sticky.{maintenance_blocks_publish}
use storage_provider_openneb.Controller.Queued.{
  validate_queue_request, operation_of, attach, Returned, done, fails, Ended, ran, ran_failed,
  not_run, queue_failed, ended, run_decided, dequeue, directly, with_queued_hotplug,
}
use storage_provider_openneb.Controller.Publish.{
  PublishRequest, Published, Reply, refused, replied, publish_queued, publish_ended,
  publish_unless_cooling, publish_unless_blocked, publish_unless_there, publish_disk,
}
use storage_provider_openneb.Controller.Publish.Located.{
  seen, seen_now, is_found, seen-publish_attached,
}
use storage_provider_openneb.Controller.Publish.Attached.{publish_queued-is_found}
use storage_provider_openneb.Controller.Unpublish.Success.{fresh}
use storage_provider_openneb.Controller.Calls.{notable}
use storage_provider_openneb.Controller.Publish.Decided.{skipped, is_decided, validate-is_decided}

-- What stands behind a reply: for a response the device was seen, and for none the queue skipped the
-- function.
abbrev pub grounded : PublishRequest → ℤ → ℤ → Reply Published → History → Bool
grounded req id node_id (refused c) h = true
grounded req id node_id (replied none) h = skipped req id node_id h
grounded req id node_id (replied (some p)) h = seen id node_id p.device h

module _ (req : PublishRequest) (id node_id : ℤ) where
  -- How the queued operation ends.
  abbrev is_ended : Ended Published → History → Bool
  is_ended (ran p) h = seen id node_id p.device h
  is_ended not_run h = skipped req id node_id h
  is_ended (ran_failed c) h = true
  is_ended (queue_failed e) h = true

  ended-is_ended :
      (late : Bool) (r : Returned Published) (h : History)
      → is_found id node_id r h ≡ true
      → is_ended (ended late r) h ≡ true
  ended-is_ended late (fails c) h eq = refl
  ended-is_ended false (done p) h eq = eq
  ended-is_ended true (done p) h eq = refl

  run_decided-is_ended :
      (late : Bool) (d : Decision) (s : Server)
      → is_decided req id node_id d (notable s.history) ≡ true
      → let r = run_decided late (publish_queued req id node_id) d s in
        is_ended r.0 (notable r.1.history) ≡ true
  run_decided-is_ended late valid s h =
      let r = publish_queued req id node_id s in
      ended-is_ended late r.0 (notable r.1.history) (publish_queued-is_found req id node_id s)
  run_decided-is_ended late completed s h = h
  run_decided-is_ended late is_stale s h = refl
  run_decided-is_ended late is_paused s h = refl

  dequeue-is_ended :
      (q : QueueReply) (s : Server)
      → let r =
          dequeue req.node "attach" req.volume
            (publish_queued req id node_id)
            q
            (logged (queued req.node "attach" req.volume q) s) in
        is_ended r.0 (notable r.1.history) ≡ true
  unfolding operation_of to_lower trim_space
  dequeue-is_ended (gives_up e) s = refl
  dequeue-is_ended merged s = rw (eq_refl req.node, eq_refl req.volume) refl
  dequeue-is_ended (merged_failed c) s = refl
  dequeue-is_ended (runs late) s =
      let s1 = logged (queued req.node "attach" req.volume (runs late)) s in
      let r = validate_queue_request req.node attach req.volume s1 in
      run_decided-is_ended late r.0 r.1 (validate-is_decided req id node_id s1)

  directly-is_ended :
      (r : Returned Published) (h : History)
      → is_found id node_id r h ≡ true
      → is_ended (directly r) h ≡ true
  directly-is_ended (fails c) h eq = refl
  directly-is_ended (done p) h eq = eq

  queue-is_ended :
      (s : Server)
      → let r =
          with_queued_hotplug req.node "attach" req.volume (publish_queued req id node_id) s in
        is_ended r.0 (notable r.1.history) ≡ true
  unfolding with_queued_hotplug
  queue-is_ended s = elim (Bool-cases (on_by_default s.settings.queue_enabled)) [
    | inl on ↦ rw on (dequeue-is_ended (s.outside.queue s.history req.node "attach" req.volume) s)
    | inr off ↦
        let r = publish_queued req id node_id s in
        rw off
          (directly-is_ended r.0 (notable r.1.history) (publish_queued-is_found req id node_id s))
  ]

  publish_ended-grounded :
      (e : Ended Published) (s : Server)
      → is_ended e (notable s.history) ≡ true
      → let r = publish_ended req.node e s in
        grounded req id node_id r.0 (notable r.1.history) ≡ true
  publish_ended-grounded (ran p) s h = h
  publish_ended-grounded (ran_failed c) s h = refl
  publish_ended-grounded not_run s h = h
  publish_ended-grounded (queue_failed e) s h = refl

  unless_cooling-grounded :
      (c : Option CooldownState) (s : Server)
      → let r = publish_unless_cooling req id node_id c s in
        grounded req id node_id r.0 (notable r.1.history) ≡ true
  unless_cooling-grounded (some c) s = refl
  unless_cooling-grounded none s =
      let r = with_queued_hotplug req.node "attach" req.volume (publish_queued req id node_id) s in
      publish_ended-grounded r.0 r.1 (queue-is_ended s)

  unless_blocked-grounded :
      (blocked : Bool) (s : Server)
      → let r = publish_unless_blocked req id node_id blocked s in
        grounded req id node_id r.0 (notable r.1.history) ≡ true
  unless_blocked-grounded true s = refl
  unless_blocked-grounded false s =
      let r = hotplug_cooldown_state req.node s in unless_cooling-grounded r.0 r.1

  unless_there-grounded :
      (there : Answer String) (s : Server)
      → let r = publish_unless_there req id node_id there (logged (located id node_id there) s) in
        grounded req id node_id r.0 (notable r.1.history) ≡ true
  unless_there-grounded (answered device) s =
      seen-publish_attached id node_id req device (logged (located id node_id (answered device)) s)
        (seen_now id node_id device (notable s.history))
  unless_there-grounded (failed e) s =
      let r =
        maintenance_blocks_publish req.volume req.node (logged (located id node_id (failed e)) s) in
      unless_blocked-grounded r.0 r.1

-- When ControllerPublishVolume, for a disk and a node that are found, returns a response, its device is
-- one under which GetVolumeInNode found this volume on this node during the call. When it returns
-- neither a response nor an error, either its request was merged into another one that succeeded, or
-- the queue's check just found the volume, looked up by its name, on the node, looked up by its name.
pub publish_disk-grounded :
    (req : PublishRequest) (id node_id : ℤ) (s : Server)
    → let r = publish_disk req id node_id (fresh s) in
      grounded req id node_id r.0 (notable r.1.history) ≡ true
unfolding publish_disk
publish_disk-grounded req id node_id s =
    let s0 = fresh s in
    unless_there-grounded req id node_id (s0.outside.volume_in_node s0.history id node_id) s0
