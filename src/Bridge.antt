-- ===== src/Bridge.antt =====
-- iec61850/report_bridge.c: the C side of the report callback.
pub mod Flat
pub mod Count
pub mod Flatten
pub mod Tokens
pub mod DataSet
