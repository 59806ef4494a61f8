-- ===== src/Tests.antt =====
-- Runs of the models on concrete inputs.
mod Queue
mod Waiting
mod Guard
mod Quarantine
mod Sticky
mod Timeouts
mod Datastores
mod Access
mod Locks
mod Disks
mod Lookup
mod Handlers
