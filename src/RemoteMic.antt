-- ===== src/RemoteMic.antt =====
-- src/remote-mic: a phone as the microphone of a session on another computer.
pub mod Protocol
pub mod Session
pub mod Routes
pub mod Store
pub mod Redis
pub mod Codec
pub mod Frames
mod Tests
