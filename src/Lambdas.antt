-- ===== src/Lambdas.antt =====
-- The single-file functions under infra/live/dev/lambda/: the RDS auto-stop, and the wake and teardown
-- triggers of the memory server.
pub mod AutoStop
pub mod Dispatch
mod Tests
