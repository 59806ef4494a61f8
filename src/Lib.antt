-- ===== src/Lib.antt =====
-- The hotplug and datastore core of the OpenNebula CSI driver (Go).
--
-- Volumes are attached to and detached from virtual machines by OpenNebula, one operation for a node
-- at a time. The CSI services call these parts, each of which has a state of its own:
--   - HotplugQueue: pkg/csi/driver/hotplug_queue.go, the queue of operations of each node. Request and
--     Manager are the state and the methods under its mutex (enqueue, cancel, next, finish, complete),
--     Priority and Select what `next` picks, Dispatch is `runRequest`, and Workers has the callers of
--     `Run` and the goroutines of `runNodeQueue` as steps, in any order. Order, Waits, Dedupe and the
--     modules of Workers hold proofs.
--   - HotplugGuard: pkg/csi/driver/hotplug_guard.go, the nodes that cool down or are paused.
--   - StickyAttachment: pkg/csi/driver/sticky_attachment.go, the attachments that are kept for a time.
--   - VolumeQuarantine: pkg/csi/driver/volume_quarantine.go, volumes refused after repeated failures.
--   - HostArtifact: pkg/csi/driver/host_artifact_quarantine.go, attachments refused because of leftovers
--     on a host.
--   - AdaptiveTimeout: pkg/csi/opennebula/adaptive_timeout.go, the timeouts of the operations.
--   - Datastore: pkg/csi/opennebula/datastore.go and backend.go: Kinds reads a datastore, Backend has
--     the checks of each backend, Resolve is `ResolveDatastores`, and Selectors `OrderDatastores`.
--     Runtime and Autopilot are pkg/csi/opennebula/selection_runtime.go: the attempts in flight, the
--     recent failures, and the order by scores. Environment has the checks of an image's datastore against
--     the machine's, of backend.go and of `inspectAttachmentEnvironment` in persistentdisk.go.
--   - VolumeAccess: pkg/csi/driver/volume_access.go, whether a volume is a disk or a shared file system,
--     with the profiles of pkg/csi/driver/controllerserver.go.
--   - OperationLocks: pkg/csi/driver/operation_locks.go, the mutex of each key, and the goroutines that
--     lock several of them as steps, in any order. Exclusion, Order and Progress hold proofs.
--   - PersistentDisk: pkg/csi/opennebula/persistentdisk.go and snapshot.go, volumes that are images.
--     Provision has `CreateVolume` and `CloneVolume` over the candidates of Datastore, Wait and Delete the
--     polling of an image, Snapshots the identifiers and pages of snapshots, Sizes the size that an
--     expansion records, Hotplug the waits for attach and detach, and Targets the next free device.
--     Expand is `ExpandVolume`.
--   - VmLookup: pkg/csi/opennebula/vm_lookup.go, the virtual machine of a node.
--   - Controller: pkg/csi/driver/controllerserver.go, the handlers that use these parts. Health has the
--     guard's checks of a node, Drift is pkg/csi/driver/metadata_drift.go, Artifacts
--     pkg/csi/driver/host_artifact_controller.go, Sticky and Moves the grace periods and volumes that
--     change nodes, Queued the check before a queued operation, Publish and Unpublish the two handlers,
--     and Expiry the reaper. Calls and the children of Publish, Unpublish and Expiry hold proofs.
-- Prelude has what they share, Golang what they use of Go (time, strings, strconv) and of ConfigMaps,
-- and Tests runs the models on concrete inputs. A function has the name of the Go function in antt's
-- spelling: `effectiveWaitLimitLocked` is `effective_wait_limit`, `MarkFailure` is `mark_failure`.
--
-- The models. A time is a number of nanoseconds since Go's zero time, and a duration is an int64 whose
-- sums and products wrap around (wrap64). A string is a list of code points. A map is an association
-- list; where the code ranges over a map, the list is in the order of that iteration. The time that a
-- function reads and the error of a ConfigMap write are arguments. A mutex is modelled by taking each
-- section under it as one step. Requests are values: what several goroutines see of a request, its
-- error and `done`, is the manager's table of completed requests. No recursion needs fuel: each loop
-- is over a list, and a run of the workers is over the list of its steps.
-- A handler of Controller is a function of the service's state and of all calls before, to which the
-- replies of OpenNebula, Kubernetes, the clock and the queue may be anything. The code takes the locks of
-- the node and of the volume in the function that is queued; the rest of a handler runs without them.
-- What other goroutines do shows in the replies only.
-- A goroutine of OperationLocks calls Acquire when it holds nothing. The controller also nests such calls,
-- which OperationLocks does not have: the volume's lock, and that of an old node, are taken while the
-- node's is held.
-- The letters of strings.ToLower, ToUpper and EqualFold are the ASCII letters and those that become one.
-- Nearly every text they are used on is compared with an ASCII word. The names of machines in VmLookup
-- are compared with each other: two names that differ in the case of other letters differ in the model.
-- The float arithmetic of the percentile's index is written
-- in whole numbers, and the float64 arithmetic of the autopilot's scores is a parameter.
--
-- Not modelled: metrics, log lines and the snapshots that are written for people; nil receivers; a
-- request without a node, which `Run` of the queue lets through; the Kubernetes and OpenNebula clients;
-- the volume and snapshot handlers of the controller service, and the node service with its mounts; the
-- inventory controller.
pub mod Prelude
pub mod Golang
pub mod HotplugQueue
pub mod HotplugGuard
pub mod StickyAttachment
pub mod VolumeQuarantine
pub mod HostArtifact
pub mod AdaptiveTimeout
pub mod Datastore
pub mod VolumeAccess
pub mod Controller
mod Tests
pub mod OperationLocks
pub mod PersistentDisk
pub mod VmLookup
