-- ===== src/Sync/Handlers.antt =====
-- The handlers of server/dukan/application/sync_policy.py, one per table and operation that a device
-- pushes. A handler takes the payload as `clean_fields` gave it, so that the fields that it reads
-- have their kinds: a null that its Python would compare with a text is a crash here, and cannot
-- come.
pub mod Catalog
pub mod Parties
pub mod Stock
pub mod Shifts
pub mod Sales
pub mod Lines
pub mod Payments
pub mod Debts
pub mod Suppliers
