-- ===== src/Pine.antt =====
-- src/daily_alpha/pine_v24_parity.py
mod Tests
pub mod Armed
pub mod V25
pub mod Bars
pub mod Indicators
pub mod State
pub mod Trend
pub mod Gap
pub mod Entry
pub mod Runner
pub mod Fills
pub mod Run
pub mod Coherent
pub mod Phases
