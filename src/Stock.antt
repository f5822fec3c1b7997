-- ===== src/Stock.antt =====
-- stock-feed: the KRX session clock, the KIS messages and the supervising loop
-- (modules/stock-feed).
pub mod Session
pub mod Kis
pub mod Supervise
pub mod Main
