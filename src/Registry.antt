-- ===== src/Registry.antt =====
-- packages/mcp-tools/src/registry/tool-registry.ts: the tools by name, and the pipeline in which each
-- one is executed.
pub mod Names
pub mod Envelope
pub mod Identity
pub mod Tools
pub mod Pipeline
pub mod Execute
