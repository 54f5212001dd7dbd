-- ===== src/Gateway/Web.antt =====
-- The HTTP interface of the gateway: BLEGatewayApplication/HTTP_HELPER.cpp and BLE_GATEWAY.cpp.
pub mod Params
pub mod Keys
pub mod Uri
pub mod Query
pub mod Accept
pub mod Request
pub mod Reply
pub mod Execute
pub mod Ready
pub mod Processed
pub mod Answers
pub mod Workers
pub mod Once
pub mod Shut
pub mod Lost
