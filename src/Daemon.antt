-- ===== src/Daemon.antt =====
-- BLEGatewayDaemon/ble_daemon.c: one client process for each dongle that is plugged in.
pub mod Map
pub mod Events
pub mod Processes
