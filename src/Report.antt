-- ===== src/Report.antt =====
-- iec61850/iec61850_report.go: received reports, and the subscriptions to them.
pub mod Decode
pub mod Build
pub mod Registry
pub mod Subscribe
pub mod InFlight
pub mod Callback
pub mod Reason
