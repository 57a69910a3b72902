-- ===== src/Tools/Tests.antt =====
-- The tools of internal/agentloop/tools at concrete inputs.
mod Texts
mod Workspace
