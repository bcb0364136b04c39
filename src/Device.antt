-- ===== src/Device.antt =====
-- src/driver/device.cpp and device.h: the driver of one device, its registers, the protocol and the
-- worker thread.
pub mod Types
pub mod Register
pub mod Store
pub mod Waiting
pub mod Send
pub mod Timeout
pub mod Receive
pub mod Commands
pub mod Counting
pub mod Reset
pub mod Inspect
pub mod Worker
pub mod Latched
pub mod Clean
pub mod Recovery
pub mod Packets
pub mod Filling
pub mod Sending
pub mod Messages
pub mod Replay
mod Tests
