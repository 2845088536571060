-- ===== src/Tests.antt =====
-- Runs of the modelled code on concrete inputs.
pub mod World
pub mod Payments
pub mod Plans
pub mod Sales
pub mod Lines
pub mod Debts
pub mod Stock
pub mod People
pub mod Payloads
pub mod Amounts
pub mod Rules
pub mod Transactions
pub mod Paging
pub mod Till
pub mod Returns
pub mod Staff
pub mod Replays
