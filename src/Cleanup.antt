-- ===== src/Cleanup.antt =====
-- remote_chat_cleanup_manager.py: when the chats of the upstream are deleted.
pub mod State
pub mod Durable
pub mod Schedule
pub mod Delete
pub mod Worker
pub mod Settle
pub mod Context
pub mod Pages
pub mod Calls
pub mod Outcomes
