-- ===== src/Client.antt =====
-- The client process, BLEGatewayClient/client.c and response_callbacks.c.
pub mod Abort
pub mod Threads
pub mod Process
pub mod Transport
pub mod Commands
pub mod Tcp
pub mod Callbacks
pub mod Notices
pub mod Serial
pub mod Start
