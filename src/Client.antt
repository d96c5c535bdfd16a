-- ===== src/Client.antt =====
-- iec61850/iec61850_client.go and iec61850/iec61850_control.go: the client.
pub mod Resolve
pub mod DataSet
pub mod Errors
pub mod Explain
pub mod Browse
pub mod Connection
pub mod Reads
