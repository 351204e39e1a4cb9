-- ===== src/Service.antt =====
-- The services of backend/internal/service.
pub mod Telegram
pub mod Transfer
pub mod Transactions
pub mod Leaders
pub mod Alerts
pub mod Users
pub mod Trade
pub mod Copy
