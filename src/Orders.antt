-- ===== src/Orders.antt =====
-- The life of an order: the handlers of internal/web (crud.go, did_handlers.go, block_handlers.go,
-- kyc_handlers.go), internal/resellerapi (resellerapi.go, extended.go) and internal/kyc that place,
-- change, move and end the rentals of numbers. A handler is one transaction; `broken` says that one
-- of its statements or its commit fails. Requests are taken as decoded; a number that does not
-- parse is 0, as the source has it. Flash messages, redirects and the JSON of replies are left out.
pub mod Tables
pub mod Create
pub mod Api
pub mod Copies
pub mod Release
pub mod Block
pub mod Kyc
pub mod Update
pub mod Patch
pub mod Accounts
pub mod Outcomes
pub mod Placed
pub mod Books
pub mod Blocking
pub mod Unblocking
pub mod Refusals
pub mod Doubles
pub mod Approvals
pub mod Resellers
pub mod Served
mod Examples
