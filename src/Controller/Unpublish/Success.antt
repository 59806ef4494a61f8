-- ===== src/Controller/Unpublish/Success.antt =====
-- `ControllerUnpublishVolume` as a whole: it succeeds only for a reason.
use storage_provider_openneb.Prelude.{
  ◌≡◌, refl, String, Bool, true, false, ◌&&◌, ◌||◌, [], ◌∷◌, Option, none, some, arith, eq_refl,
  Bool-cases, inl, inr, ap, subst, ◌∙◌,
}
use storage_provider_openneb.Prelude.Int.{ℤ, negsuc, eq_ℤ}
use storage_provider_openneb.Golang.Answer.{Answer, failed, answered}
use storage_provider_openneb.StickyAttachment
use storage_provider_openneb.StickyAttachment.{StickyState, StickyError}
use storage_provider_openneb.Golang.Cases.{to_lower}
use storage_provider_openneb.Golang.Text.{trim_space}
use storage_provider_openneb.HotplugGuard.{CooldownState}
use storage_provider_openneb.HotplugQueue.Dispatch.{Decision, valid, completed, is_stale, is_paused}
use storage_provider_openneb.Controller.{
  Server, History, clock_read, located, node_looked_up, volume_looked_up, desire_checked, queued,
  QueueReply, runs, gives_up, merged, merged_failed, logged, RuntimeContext, is_blank, Code,
  context_resolved, on_by_default,
}
use storage_provider_openneb.Controller.Health.{hotplug_cooldown_state}
use storage_provider_openneb.Controller.Drift.{is_eligible, eligible_for_maintenance}
use storage_provider_openneb.Controller.Sticky.{
  same_text, clear_sticky, start_sticky, keep_attached, rescue_attached, rescue_eligible,
  rescue_same_node, Early, is_true, hold, held_or_failed, start_maintenance_hold, after_clear,
  grace_state, maintenance_sticky_grace_seconds,
}
use storage_provider_openneb.Controller.Queued.{
  Returned, done, fails, Ended, ran, ran_failed, not_run, queue_failed, detach, operation_of,
  judge_operation, decide_unless_cooling, decide_node, decide_volume, validate_queue_request, ended,
  directly, run_decided, dequeue, with_queued_hotplug,
}
use storage_provider_openneb.Controller.Unpublish.{
  unpublish_queued, unpublish_ended, unpublish_unless_cooling, unless_early, unless_rescued,
  unpublish_there, unpublish_disk,
}
use storage_provider_openneb.Controller.Calls.{notable}
use storage_provider_openneb.Controller.Calls.Nodes.{view-hotplug_cooldown_state}
use storage_provider_openneb.Controller.Calls.Volumes.{notable-clear_sticky}
use storage_provider_openneb.Controller.Unpublish.Explained.{
  is_reason, has_reason, looked_up, explained, explained_by, Returned-Explained, absent-reason,
  unpublish_queued-Explained, started-held, or_right, eq_self,
}

in_or : (a b c : Bool) → b ≡ true → ((a || b) || c) ≡ true
in_or a b c h = ground arith

module _ (volume node : String) (id node_id : ℤ) where
  abbrev Why : Server → Type 0
  Why s = explained volume node id node_id s ≡ true

  -- An early success has its reason.
  abbrev EarlyWhy : Early → Server → Type 0
  EarlyWhy none s = Unit {0}
  EarlyWhy (some none) s = Why s
  EarlyWhy (some (some c)) s = Unit {0}

  after_clear-EarlyWhy : (e : Option StickyError) (s : Server) → Why s → EarlyWhy (after_clear e) s
  after_clear-EarlyWhy none s w = w
  after_clear-EarlyWhy (some e) s w = tt

  keep_attached-EarlyWhy :
      (entry : Option StickyState) (s : Server)
      → has_reason volume node id node_id (notable s.history) ≡ true
      → let r = keep_attached entry volume node s in EarlyWhy r.0 r.1
  keep_attached-EarlyWhy none s h = explained_by volume node id node_id s h
  keep_attached-EarlyWhy (some state) s h = elim (Bool-cases (same_text state.node_id node)) [
    | inl here ↦
        let r = clear_sticky volume s in
        rw here (
          after_clear-EarlyWhy r.0 r.1 (
            explained_by volume node id node_id r.1
              (ap (has_reason volume node id node_id) (notable-clear_sticky volume s) ∙ h)))
    | inr away ↦ rw away (explained_by volume node id node_id s h)
  ]

  rescue_attached-EarlyWhy :
      (there : Answer String) (s : Server)
      → has_reason volume node id node_id (notable s.history) ≡ true
      → let r = rescue_attached there volume node s in EarlyWhy r.0 r.1
  rescue_attached-EarlyWhy (failed e) s h = tt
  rescue_attached-EarlyWhy (answered device) s h =
      keep_attached-EarlyWhy (StickyAttachment.get s.sticky volume) s h

  desired-reason :
      (a : Answer Bool) (h : History)
      → is_true a ≡ true
      → has_reason volume node id node_id (desire_checked volume node a ∷ h) ≡ true
  desired-reason (failed e) h t = cc
  desired-reason (answered false) h t = cc
  desired-reason (answered true) h t = rw (eq_refl volume, eq_refl node) refl

  rescue_eligible-EarlyWhy :
      (s : Server) → let r = rescue_eligible volume node id node_id s in EarlyWhy r.0 r.1
  rescue_eligible-EarlyWhy s =
      let a = s.outside.desired_on_node s.history volume node in
      let s1 = logged (desire_checked volume node a) s in
      let there = s1.outside.volume_in_node s1.history id node_id in
      elim (Bool-cases (is_true a)) [
        | inl wanted ↦ rw wanted (
            rescue_attached-EarlyWhy there (logged (located id node_id there) s1) (
              or_right
                (is_reason volume node id node_id (located id node_id there) (notable s1.history))
                (has_reason volume node id node_id (notable s1.history))
                (desired-reason a (notable s.history) wanted)))
        | inr unwanted ↦ rw unwanted tt
      ]

  rescue-EarlyWhy :
      (s : Server) → let r = rescue_same_node volume node id node_id s in EarlyWhy r.0 r.1
  unfolding rescue_same_node
  rescue-EarlyWhy s =
      let c = s.outside.runtime_context s.history volume in
      elim (Bool-cases s.settings.kube_enabled) [
        | inl on ↦ elim (Bool-cases (is_eligible c volume)) [
          | inl fit ↦ simp (on, fit) (rescue_eligible-EarlyWhy (logged (context_resolved volume) s))
          | inr unfit ↦ simp (on, unfit) tt
        ]
        | inr off ↦ simp off tt
      ]

  held_or_failed-EarlyWhy :
      (context : RuntimeContext) (e : Option StickyError) (s : Server)
      → (e ≡ none → Why s)
      → let r = held_or_failed context node e s in EarlyWhy r.0 r.1
  held_or_failed-EarlyWhy context none s h = h refl
  held_or_failed-EarlyWhy context (some e) s h = tt

  hold-EarlyWhy :
      (a : Answer RuntimeContext) (s : Server) → let r = hold a volume node s in EarlyWhy r.0 r.1
  hold-EarlyWhy (failed e) s = tt
  hold-EarlyWhy (answered context) s = elim (Bool-cases (eligible_for_maintenance context volume)) [
    | inl fit ↦
        let grace = maintenance_sticky_grace_seconds s.settings in
        let now = s.outside.now s.history in
        let state = grace_state volume node context "maintenance_mode" grace now now in
        let r = start_sticky state (logged clock_read s) in
        rw fit (
          held_or_failed-EarlyWhy context r.0 r.1 (λ ok.
            or_right (has_reason volume node id node_id (notable r.1.history)) _
              (started-held volume node id node_id state (logged clock_read s) refl refl ok)))
    | inr unfit ↦ rw unfit tt
  ]

  start_maintenance_hold-EarlyWhy :
      (s : Server) → let r = start_maintenance_hold volume node s in EarlyWhy r.0 r.1
  unfolding start_maintenance_hold
  start_maintenance_hold-EarlyWhy s = elim (Bool-cases (s.maintenance && s.settings.kube_enabled)) [
    | inl on ↦ rw on (
        hold-EarlyWhy (s.outside.runtime_context s.history volume)
          (logged (context_resolved volume) s))
    | inr off ↦ rw off tt
  ]

  -- The queue's check says that the work is done only if the volume is not found on the node.
  abbrev DoneWhy : Decision → Server → Type 0
  DoneWhy completed s = has_reason volume node id node_id (notable s.history) ≡ true
  DoneWhy valid s = Unit {0}
  DoneWhy is_stale s = Unit {0}
  DoneWhy is_paused s = Unit {0}

  judge_detach-DoneWhy :
      (there : Answer String) (w n : ℤ) (s : Server)
      → looked_up volume node id node_id w n (notable s.history) ≡ true
      → let r = judge_operation detach there node volume (logged (located w n there) s) in
        DoneWhy r.0 r.1
  judge_detach-DoneWhy (answered device) w n s h = tt
  judge_detach-DoneWhy (failed e) w n s h =
      in_or (eq_ℤ w id && eq_ℤ n node_id) _ (has_reason volume node id node_id (notable s.history))
        h

  decide_unless_cooling-DoneWhy :
      (c : Option CooldownState) (w n : ℤ) (s : Server)
      → looked_up volume node id node_id w n (notable s.history) ≡ true
      → let r = decide_unless_cooling node detach volume w n c s in DoneWhy r.0 r.1
  decide_unless_cooling-DoneWhy (some c) w n s h = tt
  decide_unless_cooling-DoneWhy none w n s h =
      judge_detach-DoneWhy (s.outside.volume_in_node s.history w n) w n s h

  decide_node-DoneWhy :
      (found : Answer ℤ) (w : ℤ) (s : Server)
      → let r =
          decide_node node detach volume w found (
            logged (node_looked_up node found) (logged (volume_looked_up volume (answered w)) s)) in
        DoneWhy r.0 r.1
  decide_node-DoneWhy (failed e) w s = tt
  decide_node-DoneWhy (answered n) w s = elim (Bool-cases (eq_ℤ n (negsuc 0))) [
    | inl gone ↦ rw gone tt
    | inr there ↦
        let s1 =
          logged (node_looked_up node (answered n))
            (logged (volume_looked_up volume (answered w)) s) in
        let r = hotplug_cooldown_state node s1 in
        rw there (
          decide_unless_cooling-DoneWhy r.0 w n r.1 (
            ap (λ v. looked_up volume node id node_id w n v.0) (view-hotplug_cooldown_state node s1)
            ∙ rw (eq_refl node, eq_self n, eq_refl volume, eq_self w) refl))
  ]

  decide_volume-DoneWhy :
      (found : Answer ℤ) (s : Server)
      → let r = decide_volume node detach volume found (logged (volume_looked_up volume found) s) in
        DoneWhy r.0 r.1
  decide_volume-DoneWhy (failed e) s = tt
  decide_volume-DoneWhy (answered w) s = elim (Bool-cases (eq_ℤ w (negsuc 0))) [
    | inl gone ↦ rw gone tt
    | inr there ↦
        let s1 = logged (volume_looked_up volume (answered w)) s in
        rw there (decide_node-DoneWhy (s1.outside.node_exists s1.history node) w s)
  ]

  validate-DoneWhy :
      (s : Server) → let r = validate_queue_request node detach volume s in DoneWhy r.0 r.1
  unfolding validate_queue_request
  validate-DoneWhy s = elim (Bool-cases (is_blank node || is_blank volume)) [
    | inl blank ↦ rw blank tt
    | inr named ↦ rw named (decide_volume-DoneWhy (s.outside.volume_exists s.history volume) s)
  ]

  -- How the queued operation ends.
  abbrev EndedWhy : Ended (Unit {0}) → Server → Type 0
  EndedWhy (ran u) s = Why s
  EndedWhy not_run s = Why s
  EndedWhy (ran_failed c) s = Unit {0}
  EndedWhy (queue_failed e) s = Unit {0}

  ended-EndedWhy :
      (late : Bool) (r : Returned (Unit {0})) (s : Server)
      → Returned-Explained volume node id node_id r s
      → EndedWhy (ended late r) s
  ended-EndedWhy late (fails c) s h = tt
  ended-EndedWhy false (done u) s h = h
  ended-EndedWhy true (done u) s h = tt

  run_decided-EndedWhy :
      (late : Bool) (d : Decision) (s : Server)
      → DoneWhy d s
      → let r = run_decided late (unpublish_queued volume node id node_id) d s in EndedWhy r.0 r.1
  run_decided-EndedWhy late valid s h =
      let r = unpublish_queued volume node id node_id s in
      ended-EndedWhy late r.0 r.1 (unpublish_queued-Explained volume node id node_id s)
  run_decided-EndedWhy late completed s h = explained_by volume node id node_id s h
  run_decided-EndedWhy late is_stale s h = tt
  run_decided-EndedWhy late is_paused s h = tt

  dequeue-EndedWhy :
      (q : QueueReply) (s : Server)
      → let r =
          dequeue node "detach" volume
            (unpublish_queued volume node id node_id)
            q
            (logged (queued node "detach" volume q) s) in
        EndedWhy r.0 r.1
  unfolding operation_of to_lower trim_space
  dequeue-EndedWhy (gives_up e) s = tt
  dequeue-EndedWhy merged s =
      explained_by volume node id node_id (logged (queued node "detach" volume merged) s)
        (rw (eq_refl volume, eq_refl node) refl)
  dequeue-EndedWhy (merged_failed c) s = tt
  dequeue-EndedWhy (runs late) s =
      let s1 = logged (queued node "detach" volume (runs late)) s in
      let r = validate_queue_request node detach volume s1 in
      run_decided-EndedWhy late r.0 r.1 (validate-DoneWhy s1)

  directly-EndedWhy :
      (r : Returned (Unit {0})) (s : Server)
      → Returned-Explained volume node id node_id r s
      → EndedWhy (directly r) s
  directly-EndedWhy (fails c) s h = tt
  directly-EndedWhy (done u) s h = h

  queue-EndedWhy :
      (s : Server)
      → let r =
          with_queued_hotplug node "detach" volume (unpublish_queued volume node id node_id) s in
        EndedWhy r.0 r.1
  unfolding with_queued_hotplug
  queue-EndedWhy s = elim (Bool-cases (on_by_default s.settings.queue_enabled)) [
    | inl on ↦ rw on (dequeue-EndedWhy (s.outside.queue s.history node "detach" volume) s)
    | inr off ↦
        let r = unpublish_queued volume node id node_id s in
        rw off (directly-EndedWhy r.0 r.1 (unpublish_queued-Explained volume node id node_id s))
  ]

  -- What the handler returns: no error only for a reason.
  abbrev ReplyWhy : Option Code → Server → Type 0
  ReplyWhy none s = Why s
  ReplyWhy (some c) s = Unit {0}

  unpublish_ended-ReplyWhy :
      (e : Ended (Unit {0})) (s : Server)
      → EndedWhy e s
      → let r = unpublish_ended node e s in ReplyWhy r.0 r.1
  unpublish_ended-ReplyWhy (ran u) s h = h
  unpublish_ended-ReplyWhy (ran_failed c) s h = tt
  unpublish_ended-ReplyWhy not_run s h = h
  unpublish_ended-ReplyWhy (queue_failed e) s h = tt

  unless_cooling-ReplyWhy :
      (c : Option CooldownState) (s : Server)
      → let r = unpublish_unless_cooling volume node id node_id c s in ReplyWhy r.0 r.1
  unless_cooling-ReplyWhy (some c) s = tt
  unless_cooling-ReplyWhy none s =
      let r =
        with_queued_hotplug node "detach" volume (unpublish_queued volume node id node_id) s in
      unpublish_ended-ReplyWhy r.0 r.1 (queue-EndedWhy s)

  unless_early-ReplyWhy :
      (e : Early) (s : Server)
      → EarlyWhy e s
      → let r = unless_early volume node id node_id e s in ReplyWhy r.0 r.1
  unless_early-ReplyWhy none s h =
      let r = hotplug_cooldown_state node s in unless_cooling-ReplyWhy r.0 r.1
  unless_early-ReplyWhy (some none) s h = h
  unless_early-ReplyWhy (some (some c)) s h = tt

  unless_rescued-ReplyWhy :
      (e : Early) (s : Server)
      → EarlyWhy e s
      → let r = unless_rescued volume node id node_id e s in ReplyWhy r.0 r.1
  unless_rescued-ReplyWhy none s h =
      let r = start_maintenance_hold volume node s in
      unless_early-ReplyWhy r.0 r.1 (start_maintenance_hold-EarlyWhy s)
  unless_rescued-ReplyWhy (some none) s h = h
  unless_rescued-ReplyWhy (some (some c)) s h = tt

  unpublish_there-ReplyWhy :
      (there : Answer String) (s : Server)
      → let r =
          unpublish_there volume node id node_id there (logged (located id node_id there) s) in
        ReplyWhy r.0 r.1
  unpublish_there-ReplyWhy (failed e) s =
      explained_by volume node id node_id (logged (located id node_id (failed e)) s)
        (absent-reason volume node id node_id e (notable s.history))
  unpublish_there-ReplyWhy (answered device) s =
      let s1 = logged (located id node_id (answered device)) s in
      let r = rescue_same_node volume node id node_id s1 in
      unless_rescued-ReplyWhy r.0 r.1 (rescue-EarlyWhy s1)

-- No event yet.
abbrev pub fresh : Server → Server
fresh s = record s { history = [] }

-- When ControllerUnpublishVolume, for a disk and a node that are found, returns no error, there is a
-- reason: in this call the volume was not found on the node, a DetachVolume from it succeeded,
-- Kubernetes said that it still wants the volume there, or the request was merged into one that
-- succeeded; or the attachment is kept on this node for a grace period.
pub unpublish_disk-explained :
    (volume node : String) (id node_id : ℤ) (s : Server)
    → (unpublish_disk volume node id (some node_id) (fresh s)).0 ≡ none
    → explained volume node id node_id (unpublish_disk volume node id (some node_id) (fresh s)).1
      ≡ true
unfolding unpublish_disk
unpublish_disk-explained volume node id node_id s h =
    let s0 = fresh s in
    let r = unpublish_disk volume node id (some node_id) s0 in
    subst (λ o. ReplyWhy volume node id node_id o r.1) h
      (unpublish_there-ReplyWhy volume node id node_id
        (s0.outside.volume_in_node s0.history id node_id) s0)
