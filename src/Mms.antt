-- ===== src/Mms.antt =====
-- MMS values as the binding sees them: the types, the value tree, and the library's accessors.
pub mod Types
pub mod Value
pub mod Api
