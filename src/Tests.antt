-- ===== src/Tests.antt =====
-- The theorems at concrete inputs, and short runs of the code that they are about.
mod Wire
mod Buffers
mod Devices
mod Locks
mod Schemas
mod Server
mod Client
mod Serial
mod System
mod Handles
mod Uris
mod Watch
mod Start
mod Version3
mod Version2
