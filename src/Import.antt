-- ===== src/Import.antt =====
-- The import of spreadsheets: the cells, the transactions, and the imports of coins and members.
pub mod Cells
pub mod Settle
pub mod Tally
pub mod CoinHeader
pub mod Coins
pub mod MemberHeader
pub mod Members
