-- ===== src/Orders/Books/Steps.antt =====
-- Everything that happens to the tables of orders and numbers keeps the balances and the ledger in
-- step.
