-- ===== src/Sipctl.antt =====
-- internal/sipctl/sipctl.go: the control plane that Asterisk asks on every call.
pub mod Number
pub mod Channels
pub mod Records
pub mod Rows
pub mod Decide
pub mod Cdr
pub mod Settled
pub mod Examples
