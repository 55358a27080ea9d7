-- ===== src/Tools.antt =====
-- The tools of src/obsidian_mcp/tools that write notes.
pub mod Store
pub mod Frontmatter
pub mod Write
pub mod Directory
pub mod Replace
pub mod Sweep
pub mod Move
pub mod Sections
