-- ===== src/Datastore.antt =====
-- pkg/csi/opennebula/datastore.go and the datastore part of pkg/csi/opennebula/backend.go.
pub mod Kinds
pub mod Backend
pub mod Resolve
pub mod Candidates
pub mod Eligible
pub mod Selectors
pub mod Offered
pub mod Runtime
pub mod Environment
pub mod Autopilot
