-- ===== src/Workspace.antt =====
-- internal/workspace: what of a file is shown, and which files are hidden.
pub mod Text
pub mod Policy
