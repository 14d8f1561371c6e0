-- ===== src/Paper.antt =====
-- The paper-trading core: src/daily_alpha/models.py, sizing.py, runner.py, ledger.py, fallback.py, config.py
pub mod Models
pub mod Sizing
pub mod Fallback
pub mod Ledger
pub mod Dynamo
pub mod Pipeline
