-- ===== src/Bglib.antt =====
-- The BGAPI protocol layer of the client, BLEGatewayClient/cmd_def.c and cmd_def.h.
pub mod Handlers
pub mod Types
pub mod Commands
pub mod Responses
pub mod Events
pub mod Classes
pub mod Lookup
pub mod Send
pub mod Indices
