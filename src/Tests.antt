-- ===== src/Tests.antt =====
-- Runs of the models on concrete inputs, and each general theorem at one of them.
mod Bglib
mod Uart
mod Client
mod Daemon
mod Gateway
mod Web
