-- ===== src/Service/Reads.antt =====
-- The reads of the service (talea-service/src/service.rs): what the store answers, in the views of the
-- interface (talea-core/src/api). A transaction's id is not printed here, and the text of a number is
-- that of the function `show`.
pub mod Pages
use Prim.Native.String.{◌++◌ as append, len, slice}
use talea.Prelude.{ℕ, zero, suc, ◌-◌, String, Bool, true, false, Option, none, some, List, [], ◌∷◌}
use talea.Prelude.{length, leb, ltb, ◌==◌, if◌then◌else◌, map, max, min}
use talea.Prelude.Int.{ℤ, pos_part, neg_part}
use talea.Result.{Result, ok, err, ◌>>=◌, ok_or}
use talea.Types.{
  Seq, DateTime, Uuid, AccountId, Direction, ExternalRef, AssetDef, StoreError, Posting,
}
use talea.Types.{to_key}
use talea.State.PostingIndex.{last?}
use talea.Store.Data.{BalanceSnapshot, PostingRecord, StoredTransaction, TrialBalanceRow}
use talea.Service.{parse_book_lax, map_store_err}
use talea.Service.Drafts.{ApiError, WireAmount, internal, not_found}

-- The reads of the trait `Store`.
pub record StoreReads : Type 0 where
  pub balance : AccountId → Option DateTime → Result StoreError BalanceSnapshot
  pub asset : String → Result StoreError (Option AssetDef)
  pub account_history : AccountId → Option Seq → ℕ → Result StoreError (List PostingRecord)
  pub transaction : Uuid → Result StoreError (Option StoredTransaction)
  pub trial_balance : String → Option DateTime → Result StoreError (List TrialBalanceRow)

pub record BalanceView : Type 0 where
  pub account : String
  pub asset : String
  pub balance : String
  pub as_of : Option DateTime
  pub updated_seq : Seq

pub record PostingView : Type 0 where
  pub seq : Seq
  pub tx_id : Uuid
  pub account : String
  pub amount : WireAmount
  pub direction : Direction
  pub at : DateTime

pub record Paged : Type 0 where
  pub items : List PostingView
  pub next : Option Seq

pub record TransactionView : Type 0 where
  pub tx_id : Uuid
  pub book : String
  pub seq : Seq
  pub at : DateTime
  pub postings : List PostingView
  pub external_refs : List ExternalRef
  pub metadata : String

pub record TrialBalance : Type 0 where
  pub book : String
  pub as_of : Option DateTime
  pub lines : List TrialBalanceRow

-- `n` zeros
unfoldable pub zeros : ℕ → String
zeros zero = ""
zeros (suc n) = append "0" (zeros n)

-- `format_minor`
unfoldable pub format_minor : (ℕ → String) → ℤ → ℕ → String
unfolding zeros
format_minor show minor precision =
    let sign : String = if ltb 0 (neg_part minor) then "-" else "" in
    let digits : String = show (max (pos_part minor) (neg_part minor)) in
    let whole = len digits - precision in
    if precision == 0
    then append sign digits
    else if ltb precision (len digits)
    then append sign (append (slice digits 0 whole) (append "." (slice digits whole (len digits))))
    else append sign (append "0." (append (zeros (precision - len digits)) digits))

-- `map_err(map_store_err)`
abbrev stored {ℓ} : {A : Type ℓ} → Result StoreError A → Result ApiError A
stored (ok a) = ok a
stored (err e) = err (map_store_err e)

unfoldable pub service_balance :
    (ℕ → String) → StoreReads → String → String → Option DateTime → Result ApiError BalanceView
service_balance show store name path as_of = do
  book ← parse_book_lax name
  let account : AccountId = record { book = book; path = path }
  snapshot ← stored (store.balance account as_of)
  found ← stored (store.asset snapshot.amount.asset)
  asset ← ok_or found (internal "ledger inconsistency")
  ok (record {
    account = to_key account;
    asset = asset.id;
    balance = format_minor show snapshot.amount.minor asset.precision;
    as_of = as_of;
    updated_seq = snapshot.updated_seq;
  })

-- `(page.limit as usize).clamp(1, 1000)`
unfoldable pub page_limit : ℕ → ℕ
page_limit limit = max 1 (min limit 1000)

-- `records.last().map(|r| r.seq)`
abbrev pub last_seq : List PostingRecord → Option Seq
last_seq records = elim (last? records) [ none ↦ none | some r ↦ some r.seq ]

-- The cursor closes when the page came back short.
unfoldable pub next_cursor : ℕ → List PostingRecord → Option Seq
next_cursor limit records = if ltb (length records) limit then none else last_seq records

unfoldable pub posting_view : PostingRecord → PostingView
posting_view r = record {
  seq = r.seq;
  tx_id = r.txid;
  account = to_key r.account;
  amount = record { minor = r.amount.minor; asset = r.amount.asset };
  direction = r.direction;
  at = r.at;
}

unfoldable pub service_history :
    StoreReads → String → String → Option Seq → ℕ → Result ApiError Paged
unfolding page_limit next_cursor posting_view
service_history store name path after limit = do
  book ← parse_book_lax name
  records ←
      stored (store.account_history (record { book = book; path = path }) after (page_limit limit))
  ok (record { items = map posting_view records; next = next_cursor (page_limit limit) records })

unfoldable pub stored_posting : StoredTransaction → Posting → PostingView
stored_posting s p = record {
  seq = s.seq;
  tx_id = s.transaction.id;
  account = to_key p.account;
  amount = record { minor = p.amount.minor; asset = p.amount.asset };
  direction = p.direction;
  at = s.at;
}

-- `transaction`, once the id is parsed.
unfoldable pub service_transaction : StoreReads → Uuid → Result ApiError TransactionView
unfolding stored_posting
service_transaction store id = do
  found ← stored (store.transaction id)
  s ← ok_or found (not_found "transaction")
  ok (record {
    tx_id = s.transaction.id;
    book = s.transaction.book;
    seq = s.seq;
    at = s.at;
    postings = map (stored_posting s) s.transaction.postings;
    external_refs = s.transaction.external_refs;
    metadata = s.transaction.metadata;
  })

unfoldable pub service_trial_balance :
    StoreReads → String → Option DateTime → Result ApiError TrialBalance
service_trial_balance store name as_of = do
  book ← parse_book_lax name
  rows ← stored (store.trial_balance book as_of)
  ok (record { book = book; as_of = as_of; lines = rows })
