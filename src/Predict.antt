-- ===== src/Predict.antt =====
-- The anomaly prediction of crates/aether-predict.
pub mod Window
mod Tests
