-- ===== src/Sync/Accepted.antt =====
-- What the policy promises of every plan that it accepts: the actor may act in the plan's branch;
-- an insert is of a row that the server does not have; and an update that is written is of the row
-- as the device saw it, or needs no such check.
pub mod Masters
pub mod Goods
pub mod Sales
pub mod Ledgers
pub mod Money
