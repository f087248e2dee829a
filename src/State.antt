-- ===== src/State.antt =====
-- talea-store-log/src/state.rs: the in-memory state of one book.
pub mod PostingIndex
pub mod Validate
pub mod Apply
pub mod Data
pub use Data.{PostingEntry, AccountState, BookState, Scratch, FramePos}
unfoldable pub use Data.{effective}
