-- ===== src/Controller/Publish.antt =====
-- `ControllerPublishVolume` of pkg/csi/driver/controllerserver.go.
pub mod Moved
pub mod Located
pub mod Attached
pub mod Decided
pub mod Grounded
pub mod Exclusive
pub mod Handler
use storage_provider_openneb.Prelude.{
  String, str_eq, Bool, true, false, ◌&&◌, ◌||◌, List, [], ◌∷◌, ◌++◌, Option, none, some,
  if◌then◌else◌,
}
use storage_provider_openneb.Prelude.Int.{ℤ, pos, ltb_ℤ}
use storage_provider_openneb.Golang.Answer.{Answer, failed, answered}
use storage_provider_openneb.Golang.Text.{trim_space, concat}
use storage_provider_openneb.Golang.Decimal.{itoa}
use storage_provider_openneb.Prelude.Keys.{insert, string_key}
use storage_provider_openneb.HotplugGuard.{CooldownState}
use storage_provider_openneb.Controller.Health.{
  hotplug_cooldown_state, clear_hotplug_guard_state, handle_hotplug_timeout,
}
use storage_provider_openneb.Controller.Drift.{
  is_shared_filesystem_volume_id, reject_if_metadata_drift, clear_quarantine, resolve_context,
}
use storage_provider_openneb.Controller.Artifacts.{
  reject_if_artifact_active, handle_artifact_conflict, clear_artifacts_for_volume,
}
use storage_provider_openneb.Controller.Sticky.{
  find_node, volume_in_node, found_id, maintenance_blocks_publish, clear_sticky_reuse_state,
  annotate_for_volume,
}
use storage_provider_openneb.Controller.Moves.{
  Reuse, not_reused, reuse_failed, reused, reuse_sticky_attachment,
}
use storage_provider_openneb.Controller.Queued.{
  find_volume, Ended, ran, ran_failed, not_run, queue_failed, Returned, done, fails,
  with_queued_hotplug, queue_failure,
}
use storage_provider_openneb.Controller.{
  Server, Run, ◌>>=◌, ◌>>◌, pure, gets, ask, is_blank, RuntimeContext, Code, invalid_argument,
  not_found, failed_precondition, resource_exhausted, internal, unavailable, CallError,
  ArtifactConflict, SharedReply, shared, share_failed, attach_called, size_resolved,
  share_published,
}

-- The request: `readonly` is its flag, and `mode` says whether the capability has an access mode and
-- whether this is MULTI_NODE_READER_ONLY.
pub record PublishRequest : Type 0 where
  pub volume : String
  pub node : String
  pub has_capability : Bool
  pub mode : Option Bool
  pub readonly : Bool
  pub pvc_name : String
  pub pvc_namespace : String
  pub pv_name : String
  pub mounter : String

-- What a handler returns: an error, or its response, which may be nil.
pub data Reply (A : Type 0) : Type 0 where
  refused : Code → Reply A
  replied : Option A → Reply A

-- The response: its context but for the entries of the timeouts, and the device, which a shared volume
-- does not have.
pub record Published : Type 0 where
  pub device : String
  pub context : List (String × String)

abbrev pub entry_if : Bool → String → String → List (String × String)
entry_if false k v = []
entry_if true k v = (k, v) ∷ []

abbrev pub has_text : String → Bool
has_text s = if is_blank s then false else true

-- A name that the request gives, or that the volume's context has.
abbrev pub named : String → String → String → List (String × String)
named k given known =
    if is_blank given
    then entry_if (if str_eq known "" then false else true) k known
    else (k, trim_space given) ∷ []

abbrev pub names : PublishRequest → Option (Answer RuntimeContext) → List (String × String)
names req none =
    named "csi.storage.k8s.io/pvc/name" req.pvc_name ""
    ++ (named "csi.storage.k8s.io/pvc/namespace" req.pvc_namespace ""
        ++ named "csi.storage.k8s.io/pv/name" req.pv_name "")
names req (some (failed e)) =
    named "csi.storage.k8s.io/pvc/name" req.pvc_name ""
    ++ (named "csi.storage.k8s.io/pvc/namespace" req.pvc_namespace ""
        ++ named "csi.storage.k8s.io/pv/name" req.pv_name "")
names req (some (answered c)) =
    named "csi.storage.k8s.io/pvc/name" req.pvc_name c.pvc_name
    ++ (named "csi.storage.k8s.io/pvc/namespace" req.pvc_namespace c.pvc_namespace
        ++ (named "csi.storage.k8s.io/pv/name" req.pv_name c.pv_name
            ++ entry_if (has_text c.backend) "storage-provider.opennebula.io/backend"
                (trim_space c.backend)))

abbrev pub image_entries : Answer ℤ → List (String × String)
image_entries (failed e) = []
image_entries (answered id) =
    if ltb_ℤ (pos 0) id
    then ("opennebulaImageID", itoa id) ∷ ("deviceSerial", concat "onecsi-" (itoa id)) ∷ []
    else []

abbrev pub context_if_enabled : String → Run (Option (Answer RuntimeContext))
context_if_enabled volume s =
    if s.settings.kube_enabled then (do c ← resolve_context volume; pure (some c)) s else (none, s)

abbrev pub resolve_size : String → Run (Answer ℤ)
resolve_size volume = ask (λ o h. o.resolve_size h volume) (λ _. size_resolved volume)

-- `publishContextForVolume`
unfoldable pub publish_context : PublishRequest → String → Run Published
publish_context req device = do
  image ← find_volume req.volume
  context ← context_if_enabled req.volume
  resolve_size req.volume
  pure (record {
    device = device;
    context = ("volumeName", device) ∷ (names req context ++ image_entries image);
  })

-- The volume is on the node already: what stood in its way is forgotten.
unfoldable pub publish_attached : PublishRequest → String → Run Published
unfolding clear_quarantine clear_artifacts_for_volume clear_sticky_reuse_state annotate_for_volume
    publish_context
publish_attached req device = do
  clear_quarantine req.volume
  clear_artifacts_for_volume req.volume
  clear_sticky_reuse_state req.volume req.node
  annotate_for_volume req.volume req.node
  publish_context req device

abbrev pub attach_error_code : CallError → Code
attach_error_code e =
    if e.is_config
    then failed_precondition
    else (if e.is_capacity then resource_exhausted else internal)

abbrev pub attach_failed_with :
    PublishRequest → CallError → Option ArtifactConflict → Run (Returned Published)
attach_failed_with req e (some conflict) = do
  code ← handle_artifact_conflict req.volume conflict
  pure (fails code)
attach_failed_with req e none = do
  handle_hotplug_timeout req.node req.volume "attach" e
  pure (fails (attach_error_code e))

abbrev pub observe_attached : PublishRequest → Answer String → Run (Returned Published)
observe_attached req (failed e) = pure (fails internal)
observe_attached req (answered device) = do
  annotate_for_volume req.volume req.node
  p ← publish_context req device
  pure (done p)

abbrev pub after_attach : PublishRequest → ℤ → ℤ → Option CallError → Run (Returned Published)
after_attach req volume_id node_id (some e) = attach_failed_with req e e.conflict
after_attach req volume_id node_id none = do
  clear_hotplug_guard_state req.node
  clear_quarantine req.volume
  clear_artifacts_for_volume req.volume
  there ← volume_in_node volume_id node_id
  observe_attached req there

abbrev pub is_immutable : PublishRequest → Bool
is_immutable req = elim req.mode [ none ↦ false | some reader_only ↦ reader_only ]

abbrev pub attach_sized : PublishRequest → ℤ → ℤ → Answer ℤ → Run (Returned Published)
attach_sized req volume_id node_id (failed e) = pure (fails internal)
attach_sized req volume_id node_id (answered size) = do
  e ←
      ask (λ o h. o.attach h req.volume req.node (is_immutable req))
        (attach_called req.volume req.node (is_immutable req))
  after_attach req volume_id node_id e

unfoldable pub attach_now : PublishRequest → ℤ → ℤ → Run (Returned Published)
unfolding handle_artifact_conflict handle_hotplug_timeout annotate_for_volume publish_context
    clear_hotplug_guard_state clear_quarantine clear_artifacts_for_volume
attach_now req volume_id node_id = do
  size ← resolve_size req.volume
  attach_sized req volume_id node_id size

abbrev pub unless_artifact : PublishRequest → ℤ → ℤ → Option Code → Run (Returned Published)
unless_artifact req volume_id node_id (some c) = pure (fails c)
unless_artifact req volume_id node_id none = attach_now req volume_id node_id

abbrev pub unless_drift : PublishRequest → ℤ → ℤ → Option Code → Run (Returned Published)
unless_drift req volume_id node_id (some c) = pure (fails c)
unless_drift req volume_id node_id none = do
  c ← reject_if_artifact_active req.volume req.node
  unless_artifact req volume_id node_id c

abbrev pub unless_attached : PublishRequest → ℤ → ℤ → Answer String → Run (Returned Published)
unless_attached req volume_id node_id (answered device) = do
  p ← publish_attached req device
  pure (done p)
unless_attached req volume_id node_id (failed e) = do
  c ← reject_if_metadata_drift req.volume req.node
  unless_drift req volume_id node_id c

unfoldable pub attach_or_find : PublishRequest → ℤ → ℤ → Run (Returned Published)
unfolding publish_attached reject_if_metadata_drift reject_if_artifact_active attach_now
attach_or_find req volume_id node_id = do
  there ← volume_in_node volume_id node_id
  unless_attached req volume_id node_id there

abbrev pub unless_reused : PublishRequest → ℤ → ℤ → Reuse → Run (Returned Published)
unless_reused req volume_id node_id (reuse_failed c) = pure (fails c)
unless_reused req volume_id node_id (reused device) = do
  p ← publish_context req device
  annotate_for_volume req.volume req.node
  pure (done p)
unless_reused req volume_id node_id not_reused = attach_or_find req volume_id node_id

-- The function that is queued. The locks of the node and of the volume are held around it.
unfoldable pub publish_queued : PublishRequest → ℤ → ℤ → Run (Returned Published)
unfolding reuse_sticky_attachment attach_or_find publish_context annotate_for_volume
publish_queued req volume_id node_id = do
  r ← reuse_sticky_attachment req.volume req.node volume_id node_id
  unless_reused req volume_id node_id r

-- `response` is nil unless the function set it.
abbrev pub publish_ended : String → Ended Published → Run (Reply Published)
publish_ended node (ran p) = pure (replied (some p))
publish_ended node (ran_failed c) = pure (refused c)
publish_ended node not_run = pure (replied none)
publish_ended node (queue_failed e) = do c ← queue_failure node e; pure (refused c)

abbrev pub publish_unless_cooling :
    PublishRequest → ℤ → ℤ → Option CooldownState → Run (Reply Published)
publish_unless_cooling req volume_id node_id (some state) = pure (refused unavailable)
publish_unless_cooling req volume_id node_id none = do
  r ← with_queued_hotplug req.node "attach" req.volume (publish_queued req volume_id node_id)
  publish_ended req.node r

abbrev pub publish_unless_blocked : PublishRequest → ℤ → ℤ → Bool → Run (Reply Published)
publish_unless_blocked req volume_id node_id true = pure (refused unavailable)
publish_unless_blocked req volume_id node_id false = do
  cooling ← hotplug_cooldown_state req.node
  publish_unless_cooling req volume_id node_id cooling

abbrev pub publish_unless_there : PublishRequest → ℤ → ℤ → Answer String → Run (Reply Published)
publish_unless_there req volume_id node_id (answered device) = do
  p ← publish_attached req device
  pure (replied (some p))
publish_unless_there req volume_id node_id (failed e) = do
  blocked ← maintenance_blocks_publish req.volume req.node
  publish_unless_blocked req volume_id node_id blocked

-- The disk and the node are known.
unfoldable pub publish_disk : PublishRequest → ℤ → ℤ → Run (Reply Published)
unfolding publish_attached maintenance_blocks_publish hotplug_cooldown_state with_queued_hotplug
    publish_queued queue_failure
publish_disk req volume_id node_id = do
  there ← volume_in_node volume_id node_id
  publish_unless_there req volume_id node_id there

abbrev pub publish_on : PublishRequest → ℤ → Option ℤ → Run (Reply Published)
publish_on req volume_id none = pure (refused not_found)
publish_on req volume_id (some node_id) = publish_disk req volume_id node_id

abbrev pub publish_found : PublishRequest → Option ℤ → Run (Reply Published)
publish_found req none = pure (refused not_found)
publish_found req (some volume_id) = do
  found ← find_node req.node
  publish_on req volume_id (found_id found)

abbrev pub with_mounter : String → List (String × String) → List (String × String)
with_mounter mounter context =
    if is_blank mounter then context else insert "cephfsMounter" (trim_space mounter) context

abbrev pub share_reply : String → SharedReply → Reply Published
share_reply mounter (shared context) =
    replied (some (record { device = ""; context = with_mounter mounter context }))
share_reply mounter (share_failed e) = refused (attach_error_code e)

abbrev pub publish_share : PublishRequest → Option ℤ → Run (Reply Published)
publish_share req none = pure (refused not_found)
publish_share req (some node_id) = do
  e ←
      ask (λ o h. o.publish_shared h req.volume (req.readonly || is_immutable req))
        (λ _. share_published req.volume (req.readonly || is_immutable req))
  pure (share_reply req.mounter e)

abbrev pub publish_valid : PublishRequest → Run (Reply Published)
publish_valid req s =
    if is_shared_filesystem_volume_id req.volume
    then (if s.settings.has_shared_provider
        then (do found ← find_node req.node; publish_share req (found_id found)) s
        else (refused failed_precondition, s))
    else (do found ← find_volume req.volume; publish_found req (found_id found)) s

abbrev pub has_mode : PublishRequest → Bool
has_mode req = elim req.mode [ none ↦ false | some reader_only ↦ req.has_capability ]

unfoldable pub controller_publish_volume : PublishRequest → Run (Reply Published)
unfolding is_shared_filesystem_volume_id publish_disk
controller_publish_volume req s =
    if str_eq req.volume "" || str_eq req.node ""
    then (refused invalid_argument, s)
    else (if has_mode req then publish_valid req s else (refused invalid_argument, s))
