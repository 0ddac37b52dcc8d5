-- ===== src/GenaDevice.antt =====
-- src/gena/gena_device.cpp: event subscriptions of a device.
pub mod Request
pub mod Callbacks
pub mod Subscribe
pub mod Queue
pub mod Notify
pub mod Handlers
