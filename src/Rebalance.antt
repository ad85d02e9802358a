-- ===== src/Rebalance.antt =====
-- The plan that takes the open pairs to the target portfolio
-- (backend/core/spot_basis_auto_engine: target_state.py, delta_plan.py).
pub mod Keep
pub mod Plan
pub mod Tests
