-- ===== src/Trader.antt =====
-- The paper trading runner, infra/live/dev/lambda/alpaca_trader/.
pub mod Config
pub mod Guardrails
pub mod World
pub mod Store
pub mod Notify
pub mod Tools
pub mod Agent
pub mod Flatten
pub mod Request
pub mod Api
pub mod Strategy
pub mod Handler
mod Tests
