-- ===== src/Mcp.antt =====
-- src/mcp: the approval gate of tool calls.
pub mod Approval
