-- ===== src/Gateway.antt =====
-- The gateway application, BLEGatewayApplication: the driver of a dongle (BLE_DRIVER.cpp), which
-- talks to the client over a TCP socket, and its helpers (BLE_HELPER.cpp).
pub mod Map
pub mod Packets
pub mod Text
pub mod Driver
pub mod Register
pub mod Transport
pub mod CompletionEvents
pub mod Gatt
pub mod Errors
pub mod Responses
pub mod Events
pub mod Receive
pub mod Wait
pub mod Delivery
pub mod Meaning
pub mod Parameters
pub mod Commands
pub mod Web
