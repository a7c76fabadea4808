-- ===== src/Rndis/Control.antt =====
-- src/rndis/control.rs: the control messages, one module for each type of the source.
pub mod Message
pub mod Request
pub mod Negotiation
pub mod Query
pub mod Notification
pub mod Indication
