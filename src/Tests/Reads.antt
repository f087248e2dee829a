-- ===== src/Tests/Reads.antt =====
-- The theorems on the reads of the store, at a book with one sale.
use talea.Prelude.{ℕ, ◌≤◌, ◌≡◌, ◌++◌, ◌⊎◌, refl, none, some}
use talea.Prelude.{ap, List, [], ◌∷◌, All, arith, inl, inr}
use talea.Prelude.Eq.{string_eq, nat_eq}
use talea.Prelude.Int.{pos, ◌+ℤ◌, ◌-ℤ◌}
use talea.HashMap.{get, insert, get-All}
use talea.State.PostingIndex.Search.{IsAscending}
use talea.State.PostingIndex.{iter_from, partition_point_seq, partition_index}
use talea.Store.Reads.{take_seqs}
use talea.I64.{checked_add, checked_sub, saturating_add}
use talea.Result.{ok, err}
use talea.Types.{Transaction, debit, to_key, transaction_posted}
use talea.Idem.{idem_insert}
use talea.State.{AccountState, PostingEntry, FramePos}
use talea.State.PostingIndex.{serialize, push, default}
use talea.State.PostingIndex.Laws.{default-IsChunked}
use talea.State.Validate.{post_raw}
use talea.State.Apply.{try_apply_transaction, apply_postings, update_account, post_account, moved}
use talea.State.Apply.{record_commit, sum_posting, add_sums}
use talea.Writer.Classify.{WireEvent}
use talea.Frame.{Format, decode_frame, decode_payload, from_le_bytes}
use talea.Segment.{SegmentSet}
use talea.Segment.Scan.{catalog, scan_with_pos, scan, scan_segments, scan_segment, scan_frames}
use talea.Segment.Scan.{start_base, range_from}
use talea.Store.Data.{BookWriter}
use talea.Store.Reads.{balance_at, page, rows, trial_balance_in, usize_max}
use talea.Store.Reads.AsOf.{IsTracked, balance_at-latest, try_apply_transaction-Tracked, Tracked}
use talea.Store.Reads.History.{page-IsPrefix, later_than, changes, Apart}
use talea.Store.Replay.{Replayed, replay, replay_event}
use talea.Store.Replay.Sums.{trial_balance_in-replay}
use talea.Prelude.{map}
use talea.Store.Reads.{posting_record}
use talea.Service.Reads.{next_cursor, page_limit}
use talea.Service.Reads.Pages.{page-following, following}
use talea.Tests.{two_accounts, transfer, account, cash}

abbrev a_sale : Transaction
a_sale = transfer 1 "k1" debit 100

abbrev sale_wire : WireEvent
sale_wire = record { seq = 3; at = 6; event = transaction_posted a_sale }

-- A format that writes the sale as the byte 1.
abbrev pub sale_format : Format
sale_format = record {
  to_vec = λ ev. ok (1 ∷ []);
  from_slice = λ bytes. ok sale_wire;
  hash = λ bytes. 0;
}

abbrev pub sale_log : SegmentSet
sale_log = record {
  sealed = [];
  active_base = 3;
  active = 1 ∷ 0 ∷ 0 ∷ 0 ∷ 0 ∷ 0 ∷ 0 ∷ 0 ∷ 1 ∷ [];
  segment_max = 100;
}

abbrev sale_pairs : List (WireEvent × FramePos)
sale_pairs = (sale_wire, (3, 0)) ∷ []

abbrev before : Replayed
before = record { state = two_accounts; registry = [] }

abbrev after : Replayed
after = elim (replay sale_pairs before) [ ok r ↦ r | err _ ↦ before ]

sale_scanned : scan_with_pos sale_format 1 usize_max (catalog sale_log) ≡ ok sale_pairs
unfolding scan_with_pos scan scan_segments scan_segment scan_frames start_base range_from catalog
    decode_frame decode_payload from_le_bytes
sale_scanned = refl

sale_replayed : replay sale_pairs before ≡ ok after
unfolding replay replay_event try_apply_transaction apply_postings update_account post_account moved
    record_commit sum_posting add_sums get insert to_key post_raw checked_add checked_sub ◌+ℤ◌ ◌-ℤ◌
    saturating_add push idem_insert
sale_replayed = refl

abbrev book : BookWriter
book = record { state = after.state; log = sale_log }

trial_balance_in-replay_example :
    (trial_balance_in sale_format book (some 6) ≡ ok (rows after.state.sums))
    × (trial_balance_in sale_format book none ≡ ok (rows after.state.sums))
unfolding replay replay_event try_apply_transaction apply_postings update_account post_account moved
    record_commit sum_posting add_sums get insert to_key post_raw checked_add checked_sub ◌+ℤ◌ ◌-ℤ◌
    saturating_add push idem_insert
trial_balance_in-replay_example =
    trial_balance_in-replay sale_format book 6 sale_pairs before sale_scanned refl sale_replayed
      refl ((omega arith, omega arith), tt)

abbrev an_entry : ℕ → ℕ → ℕ → PostingEntry
an_entry n time raw = record {
  seq = n;
  at = time;
  txid = n;
  minor = pos 10;
  direction = debit;
  raw_after = pos raw;
}

-- An account with three transactions, the first of which posted to it twice.
abbrev busy : AccountState
busy = record (account cash none) {
  raw_balance = pos 40;
  updated_seq = 7;
  postings = record {
    sealed = [];
    tail = an_entry 3 6 10 ∷ an_entry 3 6 20 ∷ an_entry 5 6 30 ∷ an_entry 7 9 40 ∷ [];
  };
}

busy-IsTracked : IsTracked busy
unfolding serialize
busy-IsTracked = record {
  chunked = record { full = tt; open_tail = omega arith };
  latest = inr (an_entry 7 9 40, refl, refl, refl);
}

busy_times : IsAscending (λ e. e.at) (serialize busy.postings)
unfolding serialize
busy_times = omega arith

busy_numbers : IsAscending (λ e. e.seq) (serialize busy.postings)
unfolding serialize
busy_numbers = omega arith

busy_early : All (λ e. e.at ≤ 9) (serialize busy.postings)
unfolding serialize
busy_early = omega arith

balance_at-latest_example : balance_at busy (some 9) ≡ balance_at busy none
balance_at-latest_example = balance_at-latest busy 9 busy-IsTracked busy_times busy_early

page-IsPrefix_example :
    (rest : List PostingEntry) × (page busy none 2 ++ rest ≡ later_than busy none)
    × (changes 0 (page busy none 2) ≤ 2)
    × ((rest ≡ []) ⊎ (changes 0 (page busy none 2) ≡ 2))
    × Apart (page busy none 2) rest
page-IsPrefix_example = page-IsPrefix busy none 2 busy-IsTracked.chunked busy_numbers

-- The first page has the two postings of the first transaction, and that of the second.
first_page : page busy none 2 ≡ an_entry 3 6 10 ∷ an_entry 3 6 20 ∷ an_entry 5 6 30 ∷ []
unfolding page take_seqs iter_from partition_point_seq partition_index
first_page = refl

new-IsTracked :
    (acct : AccountState)
    → acct.postings ≡ default
    → acct.raw_balance ≡ pos 0
    → acct.updated_seq ≡ 0
    → IsTracked acct
unfolding serialize default
new-IsTracked acct empty raw seq = record {
  chunked = rw empty default-IsChunked;
  latest = inl (ap serialize empty, raw, seq);
}

two_accounts-Tracked : Tracked two_accounts.accounts
unfolding default
two_accounts-Tracked key acct found =
    get-All (λ p. IsTracked p.1) key two_accounts.accounts
      (new-IsTracked _ refl refl refl, (new-IsTracked _ refl refl refl, tt)) found

try_apply_transaction-Tracked_example : Tracked after.state.accounts
unfolding replay replay_event try_apply_transaction apply_postings update_account post_account moved
    record_commit sum_posting add_sums get insert to_key post_raw checked_add checked_sub ◌+ℤ◌ ◌-ℤ◌
    saturating_add push idem_insert
try_apply_transaction-Tracked_example =
    try_apply_transaction-Tracked a_sale 3 6 (3, 0) two_accounts two_accounts-Tracked refl

-- The second page begins where the first one ended.
page-following_example :
    page busy none (page_limit 2)
      ++ following busy (
          next_cursor
            (page_limit 2)
            (map (posting_record cash busy) (page busy none (page_limit 2))))
    ≡ later_than busy none
page-following_example = page-following cash busy none 2 busy-IsTracked.chunked busy_numbers
