-- ===== src/History.antt =====
-- web/cui/src/services/claude-history-reader.ts: conversations out of the entries of history files.
pub mod Chain
pub mod Entries
pub mod Listing
pub mod Conversation
pub mod Cleanup
pub mod Fetch
