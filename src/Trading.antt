-- ===== src/Trading.antt =====
-- Strategies that open and close two hedged legs (backend/strategies, and the forced close of
-- backend/core/risk_manager.py), over a database session and the exchanges.
pub mod Store
pub mod Held
pub mod Samples
pub mod SpotHedge
pub mod CrossExchange
