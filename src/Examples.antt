-- ===== src/Examples.antt =====
-- Runs of the components of libsponge at concrete inputs.
pub mod Streams
pub mod Endpoints
pub mod Connections
pub mod Network
pub mod Interfaces
pub mod Wire
pub mod Frames
pub mod Events
pub mod Copies
pub mod Sockets
