-- ===== src/Macos.antt =====
-- src/macos: the privileged side.
pub mod Access
pub mod Bpf
pub mod Bundle
pub mod Command
pub mod Context
pub mod Entitlements
pub mod Identity
pub mod Interface
pub mod Process
pub mod Route
mod PolicyTests
mod ProcessTests
mod Tests
