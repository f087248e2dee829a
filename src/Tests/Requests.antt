-- ===== src/Tests/Requests.antt =====
-- The theorems on the service at a concrete request.
use talea.Prelude.{◌≡◌, refl, some, [], ◌∷◌}
use talea.Prelude.Eq.{string_eq}
use talea.Prelude.Int.{pos, ◌+ℤ◌, ◌-ℤ◌}
use talea.HashMap.{get, insert}
use talea.I64.{checked_add, checked_sub}
use talea.Result.{ok, unwrap_or}
use talea.Types.{debit, credit, is_reserved, to_key}
use talea.State.{BookState}
use talea.State.Validate.{check_accounts, post_raw}
use talea.State.Apply.{try_apply_transaction, apply_postings, update_account, post_account}
use talea.State.Apply.Conservation.{net, book_total}
use talea.Service.{prepare, parse_book, parse_book_lax, tally, check_totals, add_side}
use talea.Service.Drafts.{TransactionDraft}
use talea.Service.Balanced.{prepare-net, prepare-book_total}
use talea.Tests.{two_accounts, transfer}

-- A request for a sale.
abbrev request : TransactionDraft
request = record {
  book = "main";
  idempotency_key = "k1";
  postings =
      record {
        account = "cash";
        amount = record { minor = pos 100; asset = "EUR" };
        direction = debit;
      }
      ∷ record {
        account = "sales";
        amount = record { minor = pos 100; asset = "EUR" };
        direction = credit;
      }
      ∷ [];
  external_refs = [];
  metadata = "";
  occurred_at = some 4;
}

request_prepared : prepare request 1 6 ≡ ok (transfer 1 "k1" debit 100)
unfolding prepare parse_book parse_book_lax tally check_totals add_side is_reserved get insert
    checked_add ◌+ℤ◌
request_prepared = refl

prepare-net_example : net "EUR" (transfer 1 "k1" debit 100).postings ≡ pos 0
prepare-net_example = prepare-net request 1 6 "EUR" request_prepared

request_accounts : check_accounts two_accounts.accounts (transfer 1 "k1" debit 100).postings ≡ ok tt
unfolding check_accounts get to_key
request_accounts = refl

-- The state after the request.
abbrev served_state : BookState
served_state =
    unwrap_or (try_apply_transaction (transfer 1 "k1" debit 100) 3 6 (3, 0) two_accounts)
      two_accounts

request_applied :
    try_apply_transaction (transfer 1 "k1" debit 100) 3 6 (3, 0) two_accounts ≡ some served_state
unfolding try_apply_transaction apply_postings update_account post_account post_raw get to_key
    checked_add checked_sub ◌+ℤ◌ ◌-ℤ◌ insert
request_applied = refl

prepare-book_total_example :
    book_total "EUR" served_state.accounts ≡ book_total "EUR" two_accounts.accounts
prepare-book_total_example =
    prepare-book_total request 1 6 3 6 (3, 0) two_accounts "EUR" request_prepared request_accounts
      request_applied
