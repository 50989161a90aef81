-- ===== src/Mcp.antt =====
-- internal/mcpserver: the OAuth server, and the tools of the MCP server behind it.
pub mod Limiter
pub mod Service
pub mod Registration
pub mod Authorization
pub mod Token
pub mod Consent
pub mod Reading
pub mod Tools
mod Tests
