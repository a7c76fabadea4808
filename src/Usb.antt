-- ===== src/Usb.antt =====
-- src/usb: the device side, up to the calls of the USB library.
pub mod Devices
pub mod Layout
pub mod Session
mod Tests
pub mod Unique
