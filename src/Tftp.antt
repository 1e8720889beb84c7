-- ===== src/Tftp.antt =====
-- The TFTP part: packet types, codec, option validation, transfers and the server.
pub mod Types
pub mod Opcode
pub mod ErrorCode
pub mod Encode
pub mod Parse
pub mod Options
pub mod RoundTrip
pub mod Transfer
pub mod Server
pub mod Requests
pub mod Paths
pub mod Client
mod Tests
