-- ===== src/Store/Data.antt =====
-- The records that the reads of the store answer with (talea-core/src/store.rs), and the store.
use talea.Prelude.{String, Bool, true, false, Option, none, some, ◌||◌}
use talea.Prelude.{if◌then◌else◌}
use talea.Prelude.Int.{ℤ}
use talea.Prelude.Eq.{string_eq, ◌=?◌}
use text.Mathlib.Text.{find?}
use talea.HashMap.{HashMap, get}
use talea.Result.{Result, ok, err, ◌>>◌}
use talea.Types.{
  Seq, DateTime, Uuid, AccountId, Amount, Direction, Transaction, AssetDef, StoreError,
}
use talea.Types.{io}
use talea.State.{BookState}
use talea.Segment.{SegmentSet}

pub record BalanceSnapshot : Type 0 where
  pub amount : Amount
  pub updated_seq : Seq

pub record PostingRecord : Type 0 where
  pub seq : Seq
  pub txid : Uuid
  pub account : AccountId
  pub amount : Amount
  pub direction : Direction
  pub at : DateTime

pub record StoredTransaction : Type 0 where
  pub transaction : Transaction
  pub seq : Seq
  pub at : DateTime

pub record TrialBalanceRow : Type 0 where
  pub asset : String
  pub debits : ℤ
  pub credits : ℤ

-- What the reads see of a `BookWriter`.
pub record BookWriter : Type 0 where
  pub state : BookState
  pub log : SegmentSet

pub record LogStore : Type 0 where
  pub shut_down : Bool
  pub registry : HashMap String AssetDef
  pub books : HashMap String BookWriter

abbrev has_text : String → String → Bool
has_text part whole = elim (find? whole part) [ none ↦ false | some _ ↦ true ]

unfoldable pub validate_book_name : String → Result StoreError (Unit {0})
validate_book_name book =
    if (book =? ""
      || (has_text "/" book || (has_text "\\" book || (book =? ".." || has_text ".." book))))
    then err (io "invalid book name")
    else ok tt

unfoldable pub existing_book : LogStore → String → Result StoreError (Option BookWriter)
existing_book s book =
    if s.shut_down
    then err (io "store has been shut down")
    else validate_book_name book >> ok (get book s.books)
