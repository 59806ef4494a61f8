-- ===== src/Controller/Publish/Handler.antt =====
-- `ControllerPublishVolume` as a whole: the queued function and the steps before it.
use storage_provider_openneb.Prelude.{
  ◌≡◌, refl, String, str_eq, Bool, true, false, ◌||◌, [], Option, none, some, Bool-cases, inl, inr,
  ap, subst, ◌∙◌, sym,
}
use storage_provider_openneb.Prelude.Int.{ℤ, negsuc, eq_ℤ}
use storage_provider_openneb.Golang.Answer.{Answer, failed, answered}
use storage_provider_openneb.StickyAttachment
use storage_provider_openneb.StickyAttachment.{Entries}
use storage_provider_openneb.HotplugGuard.{CooldownState}
use storage_provider_openneb.HotplugQueue.Dispatch.{Decision, valid, completed, is_stale, is_paused}
use storage_provider_openneb.Controller.{
  Server, History, located, node_looked_up, volume_looked_up, logged, Run, QueueReply, runs,
  gives_up, merged, merged_failed, queued, on_by_default, is_blank,
}
use storage_provider_openneb.Controller.Health.{hotplug_cooldown_state}
use storage_provider_openneb.Controller.Drift.{is_shared_filesystem_volume_id}
use storage_provider_openneb.Controller.Sticky.{maintenance_blocks_publish, found_id}
use storage_provider_openneb.Controller.Queued.{
  Operation, attach, detach, other_operation, judge_operation, decide_unless_cooling, decide_node,
  decide_volume, validate_queue_request, operation_of, Returned, Ended, ran, ran_failed, not_run,
  queue_failed, run_decided, dequeue, with_queued_hotplug,
}
use storage_provider_openneb.Controller.Calls.{View, view, notable}
use storage_provider_openneb.Controller.Calls.Nodes.{view-hotplug_cooldown_state}
use storage_provider_openneb.Controller.Calls.Volumes.{
  view-attach_request_stale, view-queue_failure, view-maintenance_blocks_publish,
}
use storage_provider_openneb.Controller.Publish.{
  PublishRequest, Published, publish_attached, publish_queued, publish_ended,
  publish_unless_cooling, publish_unless_blocked, publish_unless_there, publish_disk, publish_on,
  publish_valid, has_mode, controller_publish_volume,
}
use storage_provider_openneb.Controller.Publish.Moved.{unattached}
use storage_provider_openneb.Controller.Publish.Exclusive.{
  Guarded, Guarded-of-unattached, publish_queued-Guarded, unattached-publish_attached,
}

-- What the steps before the attachment keep.
abbrev pub core_of : View → Bool × Entries
core_of (h, es) = (unattached h, es)

abbrev pub core : Server → Bool × Entries
core s = core_of (view s)

core-judge_operation :
    (op : Operation) (there : Answer String) (node volume : String) (s : Server)
    → core (judge_operation op there node volume s).1 ≡ core s
core-judge_operation attach (answered d) node volume s = refl
core-judge_operation attach (failed e) node volume s =
    ap core_of (view-attach_request_stale node volume s)
core-judge_operation detach (answered d) node volume s = refl
core-judge_operation detach (failed e) node volume s = refl
core-judge_operation other_operation there node volume s = refl

core-decide_unless_cooling :
    (node : String) (op : Operation) (volume : String) (id node_id : ℤ) (c : Option CooldownState)
    (s : Server)
    → core (decide_unless_cooling node op volume id node_id c s).1 ≡ core s
core-decide_unless_cooling node op volume id node_id none s =
    let there = s.outside.volume_in_node s.history id node_id in
    core-judge_operation op there node volume (logged (located id node_id there) s)
core-decide_unless_cooling node op volume id node_id (some c) s = refl

core-decide_node :
    (node : String) (op : Operation) (volume : String) (id : ℤ) (found : Answer ℤ) (s : Server)
    → core (decide_node node op volume id found s).1 ≡ core s
core-decide_node node op volume id (failed e) s = refl
core-decide_node node op volume id (answered k) s = elim (Bool-cases (eq_ℤ k (negsuc 0))) [
  | inl gone ↦ rw gone refl
  | inr there ↦
      let r = hotplug_cooldown_state node s in
      rw there (
        core-decide_unless_cooling node op volume id k r.0 r.1
        ∙ ap core_of (view-hotplug_cooldown_state node s))
]

core-decide_volume :
    (node : String) (op : Operation) (volume : String) (found : Answer ℤ) (s : Server)
    → core (decide_volume node op volume found s).1 ≡ core s
core-decide_volume node op volume (failed e) s = refl
core-decide_volume node op volume (answered id) s = elim (Bool-cases (eq_ℤ id (negsuc 0))) [
  | inl gone ↦ rw gone refl
  | inr there ↦
      let found = s.outside.node_exists s.history node in
      rw there (core-decide_node node op volume id found (logged (node_looked_up node found) s))
]

pub core-validate_queue_request :
    (node : String) (op : Operation) (volume : String) (s : Server)
    → core (validate_queue_request node op volume s).1 ≡ core s
unfolding validate_queue_request
core-validate_queue_request node op volume s =
    elim (Bool-cases (is_blank node || is_blank volume)) [
      | inl blank ↦ rw blank refl
      | inr named ↦
          let found = s.outside.volume_exists s.history volume in
          rw named
            (core-decide_volume node op volume found (logged (volume_looked_up volume found) s))
    ]

-- A queued function that is safe from every state with no attach yet is safe in the queue.
module _ {A : Type 0} (Safe : Entries → History → Type 0)
    (quiet : (es : Entries) (h : History) → unattached h ≡ true → Safe es h) (fn : Run (Returned A))
    (safe : (s : Server)
      → unattached (notable s.history) ≡ true
      → Safe s.sticky (notable (fn s).1.history)) where
  run_decided-Safe :
      (late : Bool) (d : Decision) (es : Entries) (s : Server)
      → core s ≡ (true, es)
      → Safe es (notable (run_decided late fn d s).1.history)
  run_decided-Safe late valid es s c =
      subst (λ e. Safe e (notable (fn s).1.history)) (ap (λ p. p.1) c) (safe s (ap (λ p. p.0) c))
  run_decided-Safe late completed es s c = quiet es (notable s.history) (ap (λ p. p.0) c)
  run_decided-Safe late is_stale es s c = quiet es (notable s.history) (ap (λ p. p.0) c)
  run_decided-Safe late is_paused es s c = quiet es (notable s.history) (ap (λ p. p.0) c)

  dequeue-Safe :
      (node operation volume : String) (q : QueueReply) (es : Entries) (s : Server)
      → core s ≡ (true, es)
      → Safe es (notable (dequeue node operation volume fn q s).1.history)
  dequeue-Safe node operation volume (gives_up e) es s c =
      quiet es (notable s.history) (ap (λ p. p.0) c)
  dequeue-Safe node operation volume merged es s c = quiet es (notable s.history) (ap (λ p. p.0) c)
  dequeue-Safe node operation volume (merged_failed e) es s c =
      quiet es (notable s.history) (ap (λ p. p.0) c)
  dequeue-Safe node operation volume (runs late) es s c =
      let r = validate_queue_request node (operation_of operation) volume s in
      run_decided-Safe late r.0 es r.1
        (core-validate_queue_request node (operation_of operation) volume s ∙ c)

  pub with_queued_hotplug-Safe :
      (node operation volume : String) (es : Entries) (s : Server)
      → core s ≡ (true, es)
      → Safe es (notable (with_queued_hotplug node operation volume fn s).1.history)
  unfolding with_queued_hotplug
  with_queued_hotplug-Safe node operation volume es s c =
      elim (Bool-cases (on_by_default s.settings.queue_enabled)) [
        | inl on ↦
            let q = s.outside.queue s.history node operation volume in
            rw on (
              dequeue-Safe node operation volume q es (logged (queued node operation volume q) s) c)
        | inr off ↦ rw off (
            subst (λ e. Safe e (notable (fn s).1.history)) (ap (λ p. p.1) c)
              (safe s (ap (λ p. p.0) c)))
      ]

-- The handler's end adds no attach.
publish_ended-notable :
    (node : String) (r : Ended Published) (s : Server)
    → notable (publish_ended node r s).1.history ≡ notable s.history
publish_ended-notable node (ran p) s = refl
publish_ended-notable node (ran_failed c) s = refl
publish_ended-notable node not_run s = refl
publish_ended-notable node (queue_failed e) s = ap (λ v. v.0) (view-queue_failure node e s)

module _ (req : PublishRequest) (id node_id : ℤ) where
  abbrev Safe : Entries → History → Type 0
  Safe es h = Guarded (StickyAttachment.get es req.volume) req.volume req.node id h

  quiet-Safe : (es : Entries) (h : History) → unattached h ≡ true → Safe es h
  quiet-Safe es h u =
      Guarded-of-unattached (StickyAttachment.get es req.volume) req.volume req.node id h u

  unless_cooling-Safe :
      (c : Option CooldownState) (es : Entries) (s : Server)
      → core s ≡ (true, es)
      → Safe es (notable (publish_unless_cooling req id node_id c s).1.history)
  unless_cooling-Safe (some c) es s e = quiet-Safe es (notable s.history) (ap (λ p. p.0) e)
  unless_cooling-Safe none es s e =
      let fn = publish_queued req id node_id in
      let r = with_queued_hotplug req.node "attach" req.volume fn s in
      subst (Safe es) (sym (publish_ended-notable req.node r.0 r.1)) (
        with_queued_hotplug-Safe Safe quiet-Safe fn
          (λ s u. publish_queued-Guarded req id node_id s u) req.node "attach" req.volume es s e)

  unless_blocked-Safe :
      (blocked : Bool) (es : Entries) (s : Server)
      → core s ≡ (true, es)
      → Safe es (notable (publish_unless_blocked req id node_id blocked s).1.history)
  unless_blocked-Safe true es s e = quiet-Safe es (notable s.history) (ap (λ p. p.0) e)
  unless_blocked-Safe false es s e =
      let r = hotplug_cooldown_state req.node s in
      unless_cooling-Safe r.0 es r.1 (ap core_of (view-hotplug_cooldown_state req.node s) ∙ e)

  unless_there-Safe :
      (there : Answer String) (es : Entries) (s : Server)
      → core s ≡ (true, es)
      → Safe es (notable (publish_unless_there req id node_id there s).1.history)
  unless_there-Safe (answered device) es s e =
      quiet-Safe es (notable (publish_attached req device s).1.history)
        (unattached-publish_attached req device s ∙ ap (λ p. p.0) e)
  unless_there-Safe (failed text) es s e =
      let r = maintenance_blocks_publish req.volume req.node s in
      unless_blocked-Safe r.0 es r.1
        (ap core_of (view-maintenance_blocks_publish req.volume req.node s) ∙ e)

  pub publish_disk-Guarded :
      (es : Entries) (s : Server)
      → core s ≡ (true, es)
      → Guarded
          (StickyAttachment.get es req.volume)
          req.volume
          req.node
          id
          (notable (publish_disk req id node_id s).1.history)
  unfolding publish_disk
  publish_disk-Guarded es s e =
      let there = s.outside.volume_in_node s.history id node_id in
      unless_there-Safe there es (logged (located id node_id there) s) e

module _ (req : PublishRequest) (id : ℤ) where
  publish_on-Guarded :
      (o : Option ℤ) (es : Entries) (s : Server)
      → core s ≡ (true, es)
      → Guarded
          (StickyAttachment.get es req.volume)
          req.volume
          req.node
          id
          (notable (publish_on req id o s).1.history)
  publish_on-Guarded none es s e =
      Guarded-of-unattached (StickyAttachment.get es req.volume) req.volume req.node id
        (notable s.history) (ap (λ p. p.0) e)
  publish_on-Guarded (some node_id) es s e = publish_disk-Guarded req id node_id es s e

publish_valid-Guarded :
    (req : PublishRequest) (id : ℤ) (s : Server)
    → core s ≡ (true, s.sticky)
    → is_shared_filesystem_volume_id req.volume ≡ false
    → found_id (s.outside.volume_exists s.history req.volume) ≡ some id
    → Guarded
        (StickyAttachment.get s.sticky req.volume)
        req.volume
        req.node
        id
        (notable (publish_valid req s).1.history)
publish_valid-Guarded req id s e disk known =
    let found = s.outside.volume_exists s.history req.volume in
    let s1 = logged (volume_looked_up req.volume found) s in
    let there = s1.outside.node_exists s1.history req.node in
    rw (disk, known)
      (publish_on-Guarded req id (found_id there) s.sticky
        (logged (node_looked_up req.node there) s1) e)

-- A call of ControllerPublishVolume for a disk that is found calls AttachVolume at most once, and with
-- the volume and the node of the request. When the volume's attachment is kept on another node, then
-- before the attach either a DetachVolume from that node succeeded, or the volume was not found on it.
pub publish-Guarded :
    (req : PublishRequest) (id : ℤ) (s : Server)
    → s.history ≡ []
    → is_shared_filesystem_volume_id req.volume ≡ false
    → found_id (s.outside.volume_exists s.history req.volume) ≡ some id
    → Guarded
        (StickyAttachment.get s.sticky req.volume)
        req.volume
        req.node
        id
        (notable (controller_publish_volume req s).1.history)
unfolding controller_publish_volume
publish-Guarded req id s fresh disk known =
    let e : core s ≡ (true, s.sticky) = ap (λ h. (unattached (notable h), s.sticky)) fresh in
    elim (Bool-cases (str_eq req.volume "" || str_eq req.node "")) [
      | inl unnamed ↦
          rw unnamed (quiet-Safe req id id s.sticky (notable s.history) (ap (λ p. p.0) e))
      | inr named ↦ elim (Bool-cases (has_mode req)) [
        | inl mode ↦ rw (named, mode) (publish_valid-Guarded req id s e disk known)
        | inr modeless ↦
            rw (named, modeless)
              (quiet-Safe req id id s.sticky (notable s.history) (ap (λ p. p.0) e))
      ]
    ]
