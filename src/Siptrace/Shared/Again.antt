-- ===== src/Siptrace/Shared/Again.antt =====
-- The second lookup of a call.
