-- ===== src/Orders/Outcomes.antt =====
-- Case analyses of the requests of orders, shared by the proofs.
pub mod Creating
pub mod Editing
