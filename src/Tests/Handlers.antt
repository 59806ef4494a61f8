-- ===== src/Tests/Handlers.antt =====
-- Runs of the handlers of pkg/csi/driver/controllerserver.go.
use storage_provider_openneb.Prelude.{
  if◌then◌else◌, ◌≡◌, ◌⊎◌, refl, String, str_eq, true, false, [], ◌∷◌, none, some,
}
use storage_provider_openneb.Prelude.Int.{ℤ, pos, eq_ℤ}
use storage_provider_openneb.Prelude.Keys.{string_key}
use storage_provider_openneb.Golang.Answer.{Answer, failed, answered}
use storage_provider_openneb.Golang.Clock.{zero_time}
use storage_provider_openneb.Golang.Text.{trim_space, trim_left, trim_right, is_space}
use storage_provider_openneb.Golang.Cases.{to_lower}
use storage_provider_openneb.Golang.Search.{cut_prefix}
use storage_provider_openneb.HotplugGuard.{new_guard}
use storage_provider_openneb.StickyAttachment
use storage_provider_openneb.StickyAttachment.{StickyState}
use storage_provider_openneb.Controller.{
  Server, Settings, Outside, History, shared, QueueReply, runs, merged, detach_called,
}
use storage_provider_openneb.Controller.Health.{hotplug_cooldown_state}
use storage_provider_openneb.Controller.Drift.{is_shared_filesystem_volume_id}
use storage_provider_openneb.Controller.Sticky.{maintenance_blocks_publish}
use storage_provider_openneb.Controller.Publish.Grounded.{grounded, publish_disk-grounded}
use storage_provider_openneb.Controller.Queued.{with_queued_hotplug}
use storage_provider_openneb.Controller.Publish.{
  PublishRequest, replied, publish_disk, controller_publish_volume,
}
use storage_provider_openneb.Controller.Publish.Exclusive.{Guarded}
use storage_provider_openneb.Controller.Publish.Handler.{publish-Guarded}
use storage_provider_openneb.Controller.Unpublish.{unpublish_disk}
use storage_provider_openneb.Controller.Unpublish.Explained.{explained}
use storage_provider_openneb.Controller.Unpublish.Success.{fresh, unpublish_disk-explained}
use storage_provider_openneb.Controller.Calls.{notable}

abbrev settings : Settings
settings = record {
  kube_enabled = false;
  has_shared_provider = true;
  queue_enabled = none;
  guard_enabled = some false;
  guard_failure_threshold = none;
  guard_require_kubernetes = none;
  guard_require_open_nebula = none;
  restart_enabled = none;
  restart_require_node_ready = none;
  detach_grace_seconds = some (pos 10);
  detach_grace_max_seconds = some (pos 20);
  release_min_seconds = none;
  release_max_seconds = none;
  drift_enabled = none;
  drift_threshold = none;
  drift_ttl_seconds = none;
  artifact_enabled = none;
  artifact_threshold = none;
  artifact_ttl_seconds = none;
  stuck_after = pos 0;
}

-- The nodes are virtual machines 1 and 2, the volume is image 7, and it is on `node-1` until it is
-- detached from it.
abbrev node_number : String → Answer ℤ
node_number name = if str_eq name "node-1" then answered (pos 1) else answered (pos 2)

abbrev device_on : History → ℤ → Answer String
device_on [] n = if eq_ℤ n (pos 1) then answered "vdb" else failed "not attached"
device_on (detach_called v m none ∷ h) n = failed "not attached"
device_on (e ∷ h) n = device_on h n

abbrev cluster : QueueReply → Outside
cluster q = record {
  volume_exists = λ h v. answered (pos 7);
  node_exists = λ h n. node_number n;
  volume_in_node = λ h v n. device_on h n;
  volume_ready = λ h v. answered true;
  node_ready = λ h n. answered true;
  resolve_size = λ h v. answered (pos 1);
  attach = λ h v n i. none;
  detach = λ h v n. none;
  inspect = λ h v n. answered none;
  inspect_target = λ h v n. answered none;
  publish_shared = λ h v r. shared [];
  runtime_context = λ h v. failed "disabled";
  context_missing = λ h v. false;
  desired_on_node = λ h v n. failed "disabled";
  kube_health = λ h n. failed "disabled";
  kube_ready = λ h n. failed "disabled";
  node_status = λ h n. failed "disabled";
  claim_state = λ h v. record {
    found = failed "disabled";
    deleting = false;
    released_or_failed = false;
    attachments = failed "disabled";
  };
  now = λ h. zero_time;
  write = λ h m k. none;
  queue = λ h n o v. q;
}

abbrev kept : StickyState
kept = record {
  volume_id = "vol-a";
  node_id = "node-1";
  backend = "local";
  datastore_id = pos 100;
  pvc_namespace = "default";
  pvc_name = "claim";
  started_at = zero_time;
  expires_at = zero_time;
  grace_seconds = pos 90;
  reason = "stateful_restart";
  last_known_node_ready = true;
}

abbrev server : QueueReply → Server
server q = record {
  settings = settings;
  outside = cluster q;
  history = [];
  guard = new_guard (pos 0);
  sticky = ("vol-a", kept) ∷ [];
  quarantine = [];
  artifacts = [];
  maintenance = false;
}

abbrev request : PublishRequest
request = record {
  volume = "vol-a";
  node = "node-2";
  has_capability = true;
  mode = some false;
  readonly = false;
  pvc_name = "";
  pvc_namespace = "";
  pv_name = "";
  mounter = "";
}

is_disk_example : is_shared_filesystem_volume_id "vol-a" ≡ false
unfolding is_shared_filesystem_volume_id trim_space trim_left trim_right is_space cut_prefix
is_disk_example = refl

-- The kept volume is detached from `node-1` and attached to `node-2`.
publish-Guarded_example :
    Guarded
      (StickyAttachment.get (server (runs false)).sticky "vol-a")
      "vol-a"
      "node-2"
      (pos 7)
      (notable (controller_publish_volume request (server (runs false))).1.history)
publish-Guarded_example =
    publish-Guarded request (pos 7) (server (runs false)) refl is_disk_example refl

-- A request that is merged into another one gets no response, and no error either.
merged_reply : (publish_disk request (pos 7) (pos 2) (server merged)).0 ≡ replied none
unfolding publish_disk maintenance_blocks_publish hotplug_cooldown_state with_queued_hotplug
merged_reply = refl

unpublish_fails_not :
    (unpublish_disk "vol-a" "node-1" (pos 7) (some (pos 1)) (fresh (server (runs false)))).0 ≡ none
unfolding unpublish_disk trim_space to_lower
unpublish_fails_not = refl

unpublish_disk-explained_example :
    explained "vol-a" "node-1"
      (pos 7)
      (pos 1)
      (unpublish_disk "vol-a" "node-1" (pos 7) (some (pos 1)) (fresh (server (runs false)))).1
    ≡ true
unpublish_disk-explained_example =
    unpublish_disk-explained "vol-a" "node-1" (pos 7) (pos 1) (server (runs false))
      unpublish_fails_not

-- The volume is kept on `node-1`, and the device on `node-2` is seen after the attach.
publish_disk-grounded_example :
    let r = publish_disk request (pos 7) (pos 2) (fresh (server (runs false))) in
    grounded request (pos 7) (pos 2) r.0 (notable r.1.history) ≡ true
publish_disk-grounded_example = publish_disk-grounded request (pos 7) (pos 2) (server (runs false))
