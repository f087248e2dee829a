-- ===== src/Types.antt =====
-- talea-core/src/types and the records of talea-core/src/store.rs and events.rs: the data that every
-- part of the ledger shares. A newtype around a `String` (`Book`, `AssetId`, `IdempotencyKey`,
-- `Network`) is its text. A `Uuid` is a number; a `DateTime<Utc>` is its number of microseconds since
-- the Unix epoch, the precision in which the ledger stores time; JSON metadata is its text.
pub mod Key
pub mod Data
pub mod Equality
pub mod Codes
pub use Key.{AccountId, to_key_injective}
unfoldable pub use Key.{to_key}
pub use Codes.{Direction, debit, credit, AccountKind}
unfoldable pub use Codes.{is_reserved}
unfoldable pub use Equality.{def_eq, cfg_eq}
pub use Data.{Seq, DateTime, Uuid, AssetClass, AssetDef, Amount, AccountDef, AccountCfg, Posting}
pub use Data.{ExternalRef, Transaction, Committed, LedgerEvent, StoreError}
pub use Data.{fiat, crypto, asset_registered, account_opened, transaction_posted}
pub use Data.{constraint_violation, unknown_account, unknown_asset, asset_mismatch, already_exists}
pub use Data.{invalid_book, saturated, io}
