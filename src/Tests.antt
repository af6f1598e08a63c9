-- ===== src/Tests.antt =====
-- Concrete runs of the theorems, by part of the program.
pub mod Media
pub mod Calls
pub mod Manager
pub mod Clients
pub mod Jitter
pub mod Streams
pub mod Servers
pub mod Bridges
pub mod Files
pub mod Formats
pub mod Peers
pub mod Pumps
