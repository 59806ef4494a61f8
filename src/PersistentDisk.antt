-- ===== src/PersistentDisk.antt =====
-- pkg/csi/opennebula/persistentdisk.go: volumes that are OpenNebula images.
pub mod Wait
pub mod Provision
pub mod Snapshots
pub mod Sizes
pub mod Hotplug
pub mod Targets
pub mod Delete
pub mod Expand
