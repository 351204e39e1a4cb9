-- ===== src/Repo.antt =====
-- The Mongo repositories of backend/internal/repository, one module for each.
pub mod Users
pub mod Accounts
pub mod Trades
pub mod Transactions
pub mod Others
pub mod Symbols
pub mod Pages
