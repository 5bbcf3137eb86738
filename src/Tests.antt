-- ===== src/Tests.antt =====
-- Concrete runs, and the theorems at concrete inputs.
mod Instance
mod Structs
mod Forwarder
mod Keepalive
mod History
mod System
mod Locking
mod Json
mod Vectors
mod Downlinks
mod Config
mod Metrics
mod Helpers
mod Locks
mod Http
mod Main
mod GpsTime
mod Restarts
