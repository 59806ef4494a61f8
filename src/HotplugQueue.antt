-- ===== src/HotplugQueue.antt =====
-- pkg/csi/driver/hotplug_queue.go: the queue of attach and detach requests of each node.
pub mod Request
pub mod Priority
pub mod Select
pub mod Manager
pub mod Dispatch
pub mod Workers
pub mod Order
pub mod Waits
pub mod Dedupe
