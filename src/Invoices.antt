-- ===== src/Invoices.antt =====
-- The invoices of payments: src/invoice, and the rounding of src/utils.ts.
pub mod Rounding
pub mod Totals
pub mod Request
pub mod Tax
pub mod Payments
pub mod Issue
pub mod Allowance
pub mod Steps
pub mod Rounds
pub mod Batch
pub mod Retries
pub mod RolledBack
pub mod Unanswered
