-- ===== src/Store/Reads.antt =====
-- The reads of the store: balances, histories, transactions, the trial balance and the events.
pub mod History
pub mod AsOf
use talea.Prelude.{ℕ, zero, suc, ◌+◌, ◌-◌, String, Bool, true, false, Option, none, some, List, []}
use talea.Prelude.{◌∷◌, leb, ltb, ◌==◌, if◌then◌else◌, map}
use talea.Prelude.Int.{ℤ, pos}
use talea.Prelude.Eq.{string_eq, nat_eq}
use talea.HashMap.{HashMap, get}
use talea.Result.{Result, ok, err, ◌>>=◌, ok_or, unwrap_or}
use talea.Types.{Seq, DateTime, Uuid, AccountId, Posting, LedgerEvent, StoreError, to_key}
use talea.Types.{asset_registered, account_opened, transaction_posted, unknown_account, io}
use talea.State.{AccountState, BookState, PostingEntry, effective}
use talea.State.PostingIndex
use talea.State.Apply.{sum_posting}
use talea.Writer.Classify.{WireEvent}
use talea.Frame.{Format}
use talea.Segment.Scan.{catalog, scan_from, read_at}
use talea.Idem.Order.{sort_by_key}
use talea.Store.Data.{
  BalanceSnapshot, PostingRecord, StoredTransaction, TrialBalanceRow, BookWriter,
}
use talea.Store.Data.{LogStore, existing_book}

-- `usize::MAX`
abbrev pub usize_max : ℕ
usize_max = 18446744073709551615

-- The account of the reads; a book that is not there has no account.
unfoldable pub find_account : LogStore → AccountId → Result StoreError AccountState
find_account s account = do
  found ← existing_book s account.book
  writer ← ok_or found (unknown_account account)
  ok_or (get (to_key account) writer.state.accounts) (unknown_account account)

-- `idx.checked_sub(1).and_then(|i| acct.postings.get(i))`
unfoldable pub entry_before : ℕ → AccountState → Option PostingEntry
entry_before zero acct = none
entry_before (suc i) acct = PostingIndex.get acct.postings i

unfoldable pub balance_at : AccountState → Option DateTime → BalanceSnapshot
unfolding entry_before
balance_at acct none = record {
  amount = record {
    minor = effective acct.raw_balance acct.cfg.normal_side;
    asset = acct.def.asset;
  };
  updated_seq = acct.updated_seq;
}
balance_at acct (some t) =
    elim (entry_before (PostingIndex.partition_point_at acct.postings t) acct) [
      | none ↦ record { amount = record { minor = pos 0; asset = acct.def.asset }; updated_seq = 0 }
      | some entry ↦ record {
        amount = record {
          minor = effective entry.raw_after acct.cfg.normal_side;
          asset = acct.def.asset;
        };
        updated_seq = entry.seq;
      }
    ]

unfoldable pub balance : LogStore → AccountId → Option DateTime → Result StoreError BalanceSnapshot
balance s account as_of = do acct ← find_account s account; ok (balance_at acct as_of)

-- The loop of `account_history`: it stops before an entry of a further transaction than the limit.
unfoldable pub take_seqs : ℕ → ℕ → Seq → List PostingEntry → List PostingEntry
take_seqs limit distinct last [] = []
take_seqs limit distinct last (e ∷ es) = elim (e.seq == last) [
  | true ↦ e ∷ take_seqs limit distinct last es
  | false ↦ elim (leb limit distinct) [
    | true ↦ []
    | false ↦ e ∷ take_seqs limit (distinct + 1) e.seq es
  ]
]

unfoldable pub posting_record : AccountId → AccountState → PostingEntry → PostingRecord
posting_record account acct e = record {
  seq = e.seq;
  txid = e.txid;
  account = account;
  amount = record { minor = e.minor; asset = acct.def.asset };
  direction = e.direction;
  at = e.at;
}

-- The entries of the page, before they are made records.
unfoldable pub page : AccountState → Option Seq → ℕ → List PostingEntry
unfolding take_seqs
page acct after limit =
    let seen = unwrap_or after 0 in
    take_seqs limit 0 0
      (PostingIndex.iter_from acct.postings (PostingIndex.partition_point_seq acct.postings seen))

unfoldable pub account_history :
    LogStore → AccountId → Option Seq → ℕ → Result StoreError (List PostingRecord)
account_history s account after limit = if limit == 0 then ok [] else do
  acct ← find_account s account
  ok (map (posting_record account acct) (page acct after limit))

-- The event that is read for a transaction.
unfoldable pub stored : WireEvent → LedgerEvent → Result StoreError (Option StoredTransaction)
stored wire (transaction_posted tx) =
    ok (some (record { transaction = tx; seq = wire.seq; at = wire.at }))
stored wire (asset_registered def) = err (io "frame at recorded position is not a transaction")
stored wire (account_opened def cfg) = err (io "frame at recorded position is not a transaction")

-- The loop of `transaction` over the writers.
unfoldable pub transaction_in :
    Format → Uuid → HashMap String BookWriter → Result StoreError (Option StoredTransaction)
transaction_in f txid [] = ok none
transaction_in f txid ((_, writer) ∷ writers) = elim (get txid writer.state.txids) [
  | none ↦ transaction_in f txid writers
  | some (seq, place) ↦ elim (read_at f (catalog writer.log) place seq) [
    | err e ↦ err (io e)
    | ok wire ↦ stored wire wire.event
  ]
]

unfoldable pub transaction : Format → LogStore → Uuid → Result StoreError (Option StoredTransaction)
unfolding transaction_in stored
transaction f s txid = transaction_in f txid s.books

unfoldable pub row : String × (ℤ × ℤ) → TrialBalanceRow
row (asset, (debits, credits)) = record { asset = asset; debits = debits; credits = credits }

unfoldable pub rows : HashMap String (ℤ × ℤ) → List TrialBalanceRow
unfolding row
rows sums = map row (sort_by_key sums)

unfoldable pub sum_postings : List Posting → HashMap String (ℤ × ℤ) → HashMap String (ℤ × ℤ)
sum_postings [] sums = sums
sum_postings (p ∷ ps) sums = sum_postings ps (sum_posting p sums)

unfoldable pub sum_event : LedgerEvent → HashMap String (ℤ × ℤ) → HashMap String (ℤ × ℤ)
unfolding sum_postings
sum_event (transaction_posted tx) sums = sum_postings tx.postings sums
sum_event (asset_registered def) sums = sums
sum_event (account_opened def cfg) sums = sums

-- The fold of `trial_balance`: it stops beyond the events that are applied, and beyond the time.
unfoldable pub sum_until :
    Seq → DateTime → List WireEvent → HashMap String (ℤ × ℤ) → HashMap String (ℤ × ℤ)
unfolding sum_event
sum_until ceiling t [] sums = sums
sum_until ceiling t (wire ∷ wires) sums = elim (ltb ceiling wire.seq) [
  | true ↦ sums
  | false ↦ elim (ltb t wire.at) [
    | true ↦ sums
    | false ↦ sum_until ceiling t wires (sum_event wire.event sums)
  ]
]

unfoldable pub trial_balance_in :
    Format → BookWriter → Option DateTime → Result StoreError (List TrialBalanceRow)
unfolding rows sum_until
trial_balance_in f writer none = ok (rows writer.state.sums)
trial_balance_in f writer (some t) = elim (scan_from f 1 usize_max (catalog writer.log)) [
  | err e ↦ err (io e)
  | ok events ↦ ok (rows (sum_until (writer.state.next_seq - 1) t events []))
]

unfoldable pub trial_balance :
    Format → LogStore → String → Option DateTime → Result StoreError (List TrialBalanceRow)
trial_balance f s book as_of = existing_book s book >>= λ found. elim found [
  | none ↦ ok []
  | some writer ↦ trial_balance_in f writer as_of
]

-- `take_while(|w| w.seq <= ceiling)`
unfoldable pub applied : Seq → List WireEvent → List WireEvent
applied ceiling [] = []
applied ceiling (wire ∷ wires) = if leb wire.seq ceiling then wire ∷ applied ceiling wires else []

unfoldable pub read_events :
    Format → LogStore → String → Seq → ℕ → Result StoreError (List WireEvent)
unfolding applied
read_events f s book from limit = existing_book s book >>= λ found. elim found [
  | none ↦ ok []
  | some writer ↦ elim (scan_from f from limit (catalog writer.log)) [
    | err e ↦ err (io e)
    | ok wires ↦ ok (applied (writer.state.next_seq - 1) wires)
  ]
]
