-- ===== src/Store.antt =====
-- The log store (talea-store-log/src/lib.rs): its reads and writes over the states and the logs of its
-- books. A lock that is held for the whole of a call makes it one step here. The writer of a book is the
-- part of it that the reads see: the state, and the segments of the log. The texts of errors leave out
-- what they print.
pub mod Data
pub mod Reads
pub mod Writes
pub mod Replay
pub mod Open
