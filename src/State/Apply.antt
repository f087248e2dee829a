-- ===== src/State/Apply.antt =====
-- `try_apply_transaction`, `apply_account_opened` and `bump_seq` of talea-store-log/src/state.rs.
pub mod Agreement
pub mod Conservation
use talea.Prelude.{ℕ, ◌+◌, String, Option, none, some, List, [], ◌∷◌}
use talea.Prelude.Eq.{string_eq, nat_eq}
use talea.Prelude.Int.{ℤ, pos}
use talea.HashMap.{HashMap, get, insert, or_insert}
use talea.I64.{saturating_add}
use talea.Result.{bind_option, unwrap_or}
use talea.Types.{debit, credit, Direction, Posting, Transaction, Seq, DateTime, Uuid, to_key}
use talea.Types.{AccountDef, AccountCfg}
use talea.Idem.{idem_insert}
use talea.State.Data.{AccountState, BookState, FramePos, PostingEntry}
use talea.State.PostingIndex
use talea.State.Validate.{post_raw}

-- The account after a posting that left the balance `raw_after`, its history grown by one entry.
unfoldable pub moved : Uuid → Seq → DateTime → Posting → AccountState → ℤ → AccountState
moved txid seq at p acct raw_after = record acct {
  raw_balance = raw_after;
  updated_seq = seq;
  postings = PostingIndex.push acct.postings (record {
    seq = seq;
    at = at;
    txid = txid;
    minor = p.amount.minor;
    direction = p.direction;
    raw_after = raw_after;
  });
}

-- What one posting does to its account.
unfoldable pub post_account : Uuid → Seq → DateTime → Posting → AccountState → Option AccountState
post_account txid seq at p acct =
    bind_option (post_raw p.direction acct.raw_balance p.amount.minor)
      λ raw_after. some (moved txid seq at p acct raw_after)

-- The lifetime sums saturate.
unfoldable pub add_sums : Direction → ℤ → ℤ × ℤ → ℤ × ℤ
add_sums debit minor (debits, credits) = (saturating_add debits minor, credits)
add_sums credit minor (debits, credits) = (debits, saturating_add credits minor)

unfoldable pub sum_posting : Posting → HashMap String (ℤ × ℤ) → HashMap String (ℤ × ℤ)
unfolding add_sums
sum_posting p sums =
    let asset = p.amount.asset in
    insert asset (add_sums p.direction p.amount.minor (unwrap_or (get asset sums) (pos 0, pos 0)))
      sums

-- `if let Some(acct) = self.accounts.get_mut(&key)`: a missing account is passed over.
unfoldable pub update_account :
    Uuid
    → Seq
    → DateTime
    → Posting
    → HashMap String AccountState
    → Option (HashMap String AccountState)
unfolding post_account
update_account txid seq at p accounts =
    let key = to_key p.account in
    elim (get key accounts) [
      | none ↦ some accounts
      | some acct ↦
          bind_option (post_account txid seq at p acct) λ acct'. some (insert key acct' accounts)
    ]

-- The loop over the postings; `none` is a balance that overflows.
unfoldable pub apply_postings : Uuid → Seq → DateTime → List Posting → BookState → Option BookState
apply_postings txid seq at [] st = some st
apply_postings txid seq at (p ∷ ps) st =
    bind_option (update_account txid seq at p st.accounts) λ accounts'.
      apply_postings txid seq at ps
        (record st { accounts = accounts'; sums = sum_posting p st.sums })

-- What `try_apply_transaction` records after the loop.
unfoldable pub record_commit : Transaction → Seq → DateTime → FramePos → BookState → BookState
record_commit tx seq at place st = record st {
  idem = idem_insert tx.idempotency_key (record { txid = tx.id; seq = seq; at = at }) st.idem;
  txids = insert tx.id (seq, place) st.txids;
  next_seq = seq + 1;
  last_at = some at;
}

-- `try_apply_transaction`; both callers give the state up on `none`.
unfoldable pub try_apply_transaction :
    Transaction → Seq → DateTime → FramePos → BookState → Option BookState
try_apply_transaction tx seq at place st =
    bind_option (apply_postings tx.id seq at tx.postings st)
      λ st'. some (record_commit tx seq at place st')

-- `apply_account_opened`: an account that is there stays as it is.
unfoldable pub apply_account_opened :
    AccountDef → AccountCfg → Seq → DateTime → BookState → BookState
apply_account_opened def cfg seq at st = record st {
  accounts =
      or_insert (to_key def.id)
        (record {
          def = def;
          cfg = cfg;
          raw_balance = pos 0;
          updated_seq = 0;
          postings = PostingIndex.default;
        })
        st.accounts;
  next_seq = seq + 1;
  last_at = some at;
}

unfoldable pub bump_seq : Seq → DateTime → BookState → BookState
bump_seq seq at st = record st { next_seq = seq + 1; last_at = some at }
