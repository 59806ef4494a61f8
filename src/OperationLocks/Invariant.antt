-- ===== src/OperationLocks/Invariant.antt =====
-- How the table of pkg/csi/driver/operation_locks.go and its users agree.
pub mod Table
pub mod Steps
