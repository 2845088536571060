-- ===== src/SalesService.antt =====
-- server/dukan/infrastructure/sales_service.py and shift_cash.py over the tables of Store. A call
-- gives back the tables after its commit, or the error that rolls it back. `new_id` is the ids
-- that the server draws, in order, those of audit rows aside; `number` prints the invoice number of a count.
pub mod Settle
pub mod Voids
pub mod Refunds
pub mod Shifts
pub mod Views
