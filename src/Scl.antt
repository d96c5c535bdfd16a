-- ===== src/Scl.antt =====
-- iec61850/scl_xml/scl.go: the SCL model and its look-ups.
pub mod Types
pub mod DoType
pub mod DataSets
pub mod Print
