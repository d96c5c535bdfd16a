-- ===== src/Server.antt =====
-- iec61850/model.go and iec61850/iec61850_server.go: the construction of a data model and the server
-- that runs it.
pub mod Library
pub mod Model
pub mod Ied
pub mod Strings
