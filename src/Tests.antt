-- ===== src/Tests.antt =====
-- Runs of the definitions on small inputs, and the theorems applied to them.
pub mod Settings
pub mod Variables
pub mod Saving
pub mod Linting
pub mod Nodes
pub mod Creating
pub mod Dialogs
pub mod Window
