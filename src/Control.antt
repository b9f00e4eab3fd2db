-- ===== src/Control.antt =====
-- internal/control: the session with the control plane.
pub mod Version
pub mod Directory
pub mod Authorize
pub mod Exec
pub mod Client
pub mod Transport
pub mod Session
pub mod Identity
pub mod Open
