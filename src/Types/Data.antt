-- ===== src/Types/Data.antt =====
-- The records and enums of talea-core/src/types, store.rs and events.rs.
use talea.Prelude.{ℕ, String, Option, List}
use talea.Prelude.Int.{ℤ}
use talea.Types.Key.{AccountId}
use talea.Types.Codes.{Direction, AccountKind}

-- `Seq`: an `i64` that counts the events of a book from 1. A log of 2^63 events is out of reach, so
-- the increment is the one of the natural numbers.
abbrev pub Seq : Type 0
Seq = ℕ

abbrev pub DateTime : Type 0
DateTime = ℕ

abbrev pub Uuid : Type 0
Uuid = ℕ

pub data AssetClass : Type 0 where
  fiat : AssetClass
  crypto : String → Option String → AssetClass

pub record AssetDef : Type 0 where
  pub id : String
  pub class : AssetClass
  pub precision : ℕ
  pub name : String

-- `minor` is an `i64`.
pub record Amount : Type 0 where
  pub minor : ℤ
  pub asset : String

pub record AccountDef : Type 0 where
  pub id : AccountId
  pub asset : String
  pub kind : AccountKind

pub record AccountCfg : Type 0 where
  pub normal_side : Option Direction
  pub min_balance : Option ℤ

pub record Posting : Type 0 where
  pub account : AccountId
  pub amount : Amount
  pub direction : Direction

pub record ExternalRef : Type 0 where
  pub kind : String
  pub value : String

pub record Transaction : Type 0 where
  pub id : Uuid
  pub book : String
  pub postings : List Posting
  pub idempotency_key : String
  pub external_refs : List ExternalRef
  pub metadata : String
  pub occurred_at : DateTime

pub record Committed : Type 0 where
  pub txid : Uuid
  pub seq : Seq
  pub at : DateTime

pub data LedgerEvent : Type 0 where
  asset_registered : AssetDef → LedgerEvent
  account_opened : AccountDef → AccountCfg → LedgerEvent
  transaction_posted : Transaction → LedgerEvent

-- The strings inside an `Io` error are its messages.
pub data StoreError : Type 0 where
  constraint_violation : AccountId → ℤ → ℤ → StoreError
  unknown_account : AccountId → StoreError
  unknown_asset : String → StoreError
  asset_mismatch : AccountId → String → String → StoreError
  already_exists : String → StoreError
  invalid_book : String → StoreError
  saturated : StoreError
  io : String → StoreError
