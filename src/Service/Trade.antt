-- ===== src/Service/Trade.antt =====
-- `tradeService` of service/trade_service.go. While a method waits in a `select`, other goroutines
-- run: what they do until it returns is an argument, `others`.
pub mod Channels
pub mod Tails
pub mod Place
pub mod Respond
pub mod Stream
pub mod Close
pub mod Request
