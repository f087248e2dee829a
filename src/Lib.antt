-- ===== src/Lib.antt =====
-- A model of talea, a double-entry ledger, and of its embedded log store, with the theorems that make
-- it correct.
--
-- A book is a namespace of accounts with one append-only log of events. Its state is kept in memory and
-- is rebuilt from the log; one writer task per book takes jobs from a queue in batches, classifies
-- them against the committed state and an overlay of the batch, writes and syncs the accepted events,
-- applies them to the state, and answers the jobs.
--
-- Prelude, HashMap, Result and I64 carry what the parts share: Boolean tests, lists and integers over
-- the native numbers, `HashMap` as an association list (no theorem depends on its order), errors as
-- values, and the checked, saturating and wrapping operations of `i64`.
-- Types: talea-core/src/types, talea-core/src/events.rs and the data of talea-core/src/store.rs.
--   `to_key` in Types/Key, the database codes in Types/Codes, the records in Types/Data.
-- State: talea-store-log/src/state.rs. State/Data has the records, State/PostingIndex the chunked
--   posting history, State/Validate has `validate` and `stage`, State/Apply has
--   `try_apply_transaction`, `apply_account_opened` and `bump_seq`.
-- Idem: talea-store-log/src/idem_spill.rs, the idempotency index. Idem has its memory, Idem/Filter the
--   Bloom filter, Idem/Order the order of keys and the binary search, Idem/Spill the encoding of runs, the
--   lookup, the flush and the merge, Idem/Spill/Attach the attachment to a folder at open. A run file is its
--   bytes, under its number. SipHash is a `Hasher`; the JSON codec and the checksum are a `RunFormat`, whose
--   documented behaviour is `IsRunFormat`; which writes and removals succeed is an `Attempts`. A file that
--   is there can be read. The binary search has the length of its slice as fuel: each step shortens it.
-- Writer: talea-store-log/src/writer.rs. Writer/Resolve is phases 2a and 2b of `run_loop`, over an
--   interface to the spilled runs, which Writer/Resolve/Tiered fills with the index, Writer/Classify phase
--   2c, Writer/Settle the phases 3 to 6; `run_batch` composes phases 2c to 6. The clock is one reading for
--   each job, the write phase a function from the staged events to the positions of their frames, or a
--   failure.
-- Frame: talea-store-log/src/frame.rs. `serde_json` and `crc32fast` are a `Format`, a record of the
--   three functions that the code calls; `IsFormat` is what they document: what is written is read back,
--   and a checksum is below 2^32. Bytes are natural numbers.
-- Segment: talea-store-log/src/segment.rs. The files of a log are the bytes that they hold. Segment/Scan
--   has the scans and the read of one frame.
-- Snapshot: talea-store-log/src/snapshot.rs. A folder has the bytes of each snapshot under its sequence
--   number. The JSON codec of states and the checksum are a `SnapFormat`, with `IsSnapFormat` as their
--   documented behaviour: a state comes back as the attributes of the serialization say.
-- Store: talea-store-log/src/lib.rs. Store/Reads has the reads over the state and the log of a book,
--   Store/Writes the registration of assets and the opening of accounts, Store/Replay the replay of the
--   log at open, Store/Open the opening of one book. The JSON codec is the `Format` of Frame.
-- Service: talea-service/src/service.rs and the drafts of talea-core/src/api. To `post` the write router
--   is a function from the submitted transaction to its outcome. Service/Reads has the reads, over a record
--   of the reads of a store; the parsing of ids and the text of numbers are parameters.
-- Router: talea-service/src/write_router.rs. A channel is the list of the jobs that wait in it; what the
--   store answers to a batch is a parameter.
-- Tests: a small book, a batch of jobs and small indexes, at which the theorems are applied.
--
-- Amounts and balances are integers with the bounds of `i64` written out. Sequence numbers, times and
-- identifiers are natural numbers: a log of 2^63 events is out of reach, and times are only compared.
-- The loops over lists are structural recursion. The validation of a segment and its scan run on fuel, one
-- more than the bytes of the segment, which is enough because every frame takes a byte at least. A
-- committer drains its queue on fuel, the number of the jobs that are queued: a batch takes one at least.
--
-- Not modelled: the SQL stores (talea-store-postgres, talea-store-sqlite), whose logic a database runs;
-- the servers, clients and command lines, which are glue over the service; subscriptions; batches over
-- several books; the start of writers and the timer of an idle committer; the names of files; failing file
-- operations, but for the writes and the removals of runs and snapshots and the write phase of the writer;
-- gauges.
pub mod Prelude
pub mod HashMap
pub mod Types
pub mod I64
pub mod Result
pub mod Idem
pub mod State
pub mod Store
pub mod Writer
pub mod Frame
pub mod Segment
pub mod Snapshot
pub mod Service
pub mod Router
pub mod Tests
