-- ===== src/Cleanup/Delete.antt =====
-- Deletions of `RemoteChatCleanupManager`: their starts, and the pieces of a worker.
mod Starts
mod Pieces
mod Failures
unfoldable pub use Starts.*
unfoldable pub use Pieces.*
unfoldable pub use Failures.*
