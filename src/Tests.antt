-- ===== src/Tests.antt =====
-- Concrete inputs, and the theorems of the other modules applied to them.
mod Library
mod Bridge
mod Scl
mod Stored
mod Mutex
mod Client
mod Report
mod Subscribe
mod Control
mod Errors
mod Browse
mod Connection
mod Server
mod InFlight
mod Callback
mod Owned
