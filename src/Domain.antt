-- ===== src/Domain.antt =====
-- The server's domain rules, server/dukan/domain and server/dukan/shared.
pub mod Limits
pub mod Money
pub mod Sales
pub mod Inventory
pub mod Customers
pub mod Purchasing
pub mod Identity
pub mod Branches
pub mod Insights
pub mod Numbers
pub mod Catalog
