-- ===== src/Desktop.antt =====
-- The desktop provisioner, infra/live/workspaces/lambda/desktop_provisioner.py.
pub mod Cloud
pub mod Steps
pub mod Handler
mod Tests
