-- ===== src/Golang.antt =====
-- What the program uses of Go's standard library, and what a read of a ConfigMap gives.
pub mod Clock
pub mod Text
pub mod Cases
pub mod ConfigMap
pub mod StringOrder
pub mod Answer
pub mod Search
pub mod Decimal
pub mod Texts
