-- ===== src/Tests.antt =====
-- The theorems at concrete inputs.
mod Demo
mod Connection
mod Queue
mod Wire
mod Ids
mod Events
mod Net
mod Handshake
mod Wheel
mod Mgr
mod Logger
mod System
mod Thread
