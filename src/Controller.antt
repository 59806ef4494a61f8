-- ===== src/Controller.antt =====
-- The controller service of pkg/csi/driver/controllerserver.go: its state, and what it learns from
-- outside. A handler is a function of the state, which it returns changed. What OpenNebula, Kubernetes,
-- the clock and the queue reply to a call may depend on all events before it, which are the state's
-- history: what else goes on in the cluster shows in these replies. Errors have their gRPC code; their
-- texts, the metrics and the events that are written for people are left out.
pub mod Health
pub mod Drift
pub mod Artifacts
pub mod Sticky
pub mod Moves
pub mod Queued
pub mod Publish
pub mod Unpublish
pub mod Expiry
pub mod Calls
use storage_provider_openneb.Prelude.{
  String, str_eq, Bool, true, false, List, [], ◌∷◌, Option, none, some,
}
use storage_provider_openneb.Prelude.Int.{ℤ}
use storage_provider_openneb.Golang.Clock.{Time, Duration}
use storage_provider_openneb.Golang.Answer.{Answer}
use storage_provider_openneb.Golang.Text.{trim_space}
use storage_provider_openneb.HotplugGuard.{Guard}
use storage_provider_openneb.HotplugQueue.Manager.{QueueError}
use storage_provider_openneb.StickyAttachment
use storage_provider_openneb.VolumeQuarantine
use storage_provider_openneb.HostArtifact

-- The codes of gRPC that the handlers return.
pub data Code : Type 0 where
  invalid_argument not_found failed_precondition resource_exhausted internal unavailable : Code
  deadline_exceeded aborted : Code

-- `corev1.PersistentVolumeAccessMode`
pub data ClaimMode : Type 0 where
  read_write_once read_write_once_pod read_write_many read_only_many : ClaimMode

-- `VolumeRuntimeContext`, with the annotations that are read here.
pub record RuntimeContext : Type 0 where
  pub pv_name : String
  pub pvc_namespace : String
  pub pvc_name : String
  pub last_attached_node : String
  pub access_modes : List ClaimMode
  pub backend : String
  pub datastore_id : ℤ
  pub restart_mode : String
  pub detach_grace_hint : ℤ

-- What `NodeHealth` of the Kubernetes runtime returns.
pub record KubeHealth : Type 0 where
  pub ready : Bool
  pub unschedulable : Bool

-- The status of an OpenNebulaNode, as far as it is read here.
pub record NodeStatus : Type 0 where
  pub classification : String
  pub display_state : String
  pub operation : String
  pub volume_handle : String
  pub disk_attach_flag : String
  pub first_observed_at : Option Time
  pub last_observed_at : Option Time

pub record DiskRecord : Type 0 where
  pub node_name : String
  pub node_id : ℤ
  pub disk_id : ℤ
  pub target : String
  pub serial : String

-- `VolumeAttachmentMetadata`
pub record Metadata : Type 0 where
  pub volume_handle : String
  pub image_id : ℤ
  pub image_state : String
  pub image_running_vms : ℤ
  pub image_vm_ids : List ℤ
  pub requested_node : String
  pub requested_node_id : ℤ
  pub attached_to_requested_node : Bool
  pub disk_records : List DiskRecord

-- `HostArtifactAttachmentTarget`
pub record ArtifactTarget : Type 0 where
  pub image_id : ℤ
  pub node_name : String
  pub vm_id : ℤ
  pub host_id : ℤ
  pub host_name : String
  pub system_datastore_id : ℤ
  pub system_datastore_name : String
  pub system_datastore_tm : String
  pub disk_id : ℤ
  pub target : String
  pub lv_name : String

-- `HostArtifactConflictError`; `text` is what its `Error` returns.
pub record ArtifactConflict : Type 0 where
  pub classification : String
  pub target : ArtifactTarget
  pub text : String

-- `HotplugTimeoutError`
pub record HotplugTimeout : Type 0 where
  pub timeout : Duration
  pub last_observed_attached : Bool
  pub last_observed_ready : Bool

-- An error of AttachVolume or DetachVolume, by what `errors.As` and the tests of its chain find.
pub record CallError : Type 0 where
  pub conflict : Option ArtifactConflict
  pub timed_out : Option HotplugTimeout
  pub is_config : Bool
  pub is_capacity : Bool
  pub text : String

-- What `PublishSharedVolume` returns: the context, or an error.
pub data SharedReply : Type 0 where
  shared : List (String × String) → SharedReply
  share_failed : CallError → SharedReply

-- What becomes of a request in the queue, for the caller of `Run`: it is let to run, and afterwards the
-- context's deadline has passed or not; it gets an error of the queue; or it was merged into another
-- request, which returns no error or that of its function.
pub data QueueReply : Type 0 where
  runs : Bool → QueueReply
  gives_up : QueueError → QueueReply
  merged : QueueReply
  merged_failed : Code → QueueReply

-- A call that left the service, some with their reply.
pub data Event : Type 0 where
  volume_looked_up : String → Answer ℤ → Event
  node_looked_up : String → Answer ℤ → Event
  located : ℤ → ℤ → Answer String → Event
  volume_ready_checked : ℤ → Event
  node_ready_checked : String → Event
  size_resolved : String → Event
  attach_called : String → String → Bool → Option CallError → Event
  detach_called : String → String → Option CallError → Event
  inspected : String → String → Event
  share_published : String → Bool → Event
  context_resolved : String → Event
  desire_checked : String → String → Answer Bool → Event
  kube_health_checked : String → Event
  kube_ready_checked : String → Event
  node_status_read : String → Event
  claim_state_read : String → Event
  clock_read : Event
  config_map_written : String → String → Event
  pv_annotated : String → String → Event
  diagnosed : String → Event
  queued : String → String → String → QueueReply → Event

-- The latest event first.
abbrev pub History : Type 0
History = List Event

-- `attachRequestStale` after the volume's context is known: what the reads of the volume and of the
-- attachments give.
pub record ClaimState : Type 0 where
  pub found : Answer Bool  -- false is `IsNotFound`
  pub deleting : Bool
  pub released_or_failed : Bool
  pub attachments : Answer (List (String × String × Bool))  -- volume, node, being deleted

-- The clients, the clock and the queue. An identifier is -1 where there is none.
pub record Outside : Type 0 where
  pub volume_exists : History → String → Answer ℤ
  pub node_exists : History → String → Answer ℤ
  pub volume_in_node : History → ℤ → ℤ → Answer String
  pub volume_ready : History → ℤ → Answer Bool
  pub node_ready : History → String → Answer Bool
  pub resolve_size : History → String → Answer ℤ
  pub attach : History → String → String → Bool → Option CallError
  pub detach : History → String → String → Option CallError
  pub inspect : History → String → String → Answer (Option Metadata)
  pub inspect_target : History → String → String → Answer (Option ArtifactTarget)
  pub publish_shared : History → String → Bool → SharedReply
  pub runtime_context : History → String → Answer RuntimeContext
  pub context_missing : History → String → Bool  -- the error says that there is no such volume
  pub desired_on_node : History → String → String → Answer Bool
  pub kube_health : History → String → Answer KubeHealth
  pub kube_ready : History → String → Answer Bool
  pub node_status : History → String → Answer NodeStatus
  pub claim_state : History → String → ClaimState
  pub now : History → Time
  pub write : History → String → String → Option String  -- a ConfigMap's name, a key
  pub queue : History → String → String → String → QueueReply

-- The plugin's configuration: a value that is not set is none.
pub record Settings : Type 0 where
  pub kube_enabled : Bool
  pub has_shared_provider : Bool
  pub queue_enabled : Option Bool
  pub guard_enabled : Option Bool
  pub guard_failure_threshold : Option ℤ
  pub guard_require_kubernetes : Option Bool
  pub guard_require_open_nebula : Option Bool
  pub restart_enabled : Option Bool
  pub restart_require_node_ready : Option Bool
  pub detach_grace_seconds : Option ℤ
  pub detach_grace_max_seconds : Option ℤ
  pub release_min_seconds : Option ℤ
  pub release_max_seconds : Option ℤ
  pub drift_enabled : Option Bool
  pub drift_threshold : Option ℤ
  pub drift_ttl_seconds : Option ℤ
  pub artifact_enabled : Option Bool
  pub artifact_threshold : Option ℤ
  pub artifact_ttl_seconds : Option ℤ
  pub stuck_after : Duration

-- The driver, as the controller service uses it. `maintenance` is `maintenanceMode.Active()`.
pub record Server : Type 0 where
  pub settings : Settings
  pub outside : Outside
  pub history : History
  pub guard : Guard
  pub sticky : StickyAttachment.Entries
  pub quarantine : VolumeQuarantine.Entries
  pub artifacts : HostArtifact.Entries
  pub maintenance : Bool

-- Code that reads and changes the state and calls outside.
abbrev pub Run {ℓ} : Type ℓ → Type ℓ
Run A = Server → A × Server

infixl 5 ◌>>=◌ ◌>>◌
abbrev pub ◌>>=◌ {ℓ κ} : {A : Type ℓ} {B : Type κ} → Run A → (A → Run B) → Run B
◌>>=◌ m f s = f (m s).0 (m s).1

abbrev pub ◌>>◌ {ℓ κ} : {A : Type ℓ} {B : Type κ} → Run A → Run B → Run B
◌>>◌ m k s = k (m s).1

abbrev pub pure {ℓ} : {A : Type ℓ} → A → Run A
pure a s = (a, s)

-- What is read off the state.
abbrev pub gets {ℓ} : {A : Type ℓ} → (Server → A) → Run A
gets f s = (f s, s)

abbrev pub logged : Event → Server → Server
logged e s = record s { history = e ∷ s.history }

-- A call outside.
abbrev pub ask {ℓ} : {A : Type ℓ} → (Outside → History → A) → (A → Event) → Run A
ask reply event s = let r = reply s.outside s.history in (r, logged (event r) s)

-- `value, ok := …; !ok || value`
abbrev pub on_by_default : Option Bool → Bool
on_by_default none = true
on_by_default (some b) = b

abbrev pub is_blank : String → Bool
is_blank s = str_eq (trim_space s) ""
