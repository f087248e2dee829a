-- ===== src/Tests/Book.antt =====
-- The theorems on the state of a book, and on its codes, at concrete inputs.
use talea.Prelude.{◌≡◌, refl, some, [], ◌∷◌}
use talea.Prelude.{All, arith}
use talea.Prelude.Eq.{string_eq}
use talea.Prelude.Int.{pos, negsuc, ◌+ℤ◌, ◌-ℤ◌}
use talea.HashMap.{get, insert, or_insert}
use talea.Result.{ok, unwrap_or}
use talea.Types.{to_key, debit}
use talea.Types.{is_reserved}
use talea.Types.{Transaction}
use talea.Types.Key.{to_key_injective}
use talea.State.{BookState, Scratch}
use talea.State.Validate.{validate, stage, check_accounts, committed_raw, seed, project, check_min}
use talea.State.Validate.{stage_postings, check_projected, post_raw}
use talea.State.Data.{effective}
use talea.I64.{checked_add, checked_sub}
use talea.State.Apply.{try_apply_transaction}
use talea.State.Apply.Agreement.{Follows}
use text.Mathlib.TextEquality.{eq_iff}
use talea.Tests.{cash, two_accounts, transfer}
use talea.State.Validate.Staging.{stage-validate}
use talea.State.Validate.MinBalance.{KeepsMin, validate-KeepsMin}
use talea.State.Apply.Agreement.{try_apply_transaction-stage}
use talea.State.Apply.Conservation.{book_total, net, try_apply_transaction-book_total}
use talea.State.Apply.{apply_postings, update_account, post_account}

abbrev no_overlay : Scratch
no_overlay = record { raw = []; idem = [] }

-- The sale is valid.
abbrev sale : Transaction
sale = transfer 1 "k1" debit 100

sale_valid : (validate two_accounts sale no_overlay).0 ≡ ok tt
unfolding validate get insert or_insert to_key is_reserved check_accounts committed_raw seed project
    check_projected check_min post_raw effective checked_add checked_sub ◌+ℤ◌ ◌-ℤ◌
sale_valid = refl

stage-validate_example :
    (staged : Scratch) × (stage sale (validate two_accounts sale no_overlay).1 ≡ some staged)
stage-validate_example = stage-validate two_accounts sale no_overlay sale_valid

-- The overlay after the sale.
abbrev after_sale : Scratch
after_sale = record { raw = ("main:cash", pos 100) ∷ ("main:sales", negsuc 99) ∷ []; idem = [] }

sale_staged : stage sale (validate two_accounts sale no_overlay).1 ≡ some after_sale
unfolding validate stage get insert or_insert to_key is_reserved check_accounts committed_raw seed
    project stage_postings check_projected check_min post_raw effective checked_add checked_sub ◌+ℤ◌
    ◌-ℤ◌
sale_staged = refl

validate-KeepsMin_example : All (KeepsMin two_accounts.accounts after_sale.raw) sale.postings
validate-KeepsMin_example = validate-KeepsMin two_accounts sale no_overlay sale_valid sale_staged

-- The overlay that the sale starts from follows the state.
two_accounts-Follows :
    Follows
      (committed_raw two_accounts.accounts)
      (validate two_accounts sale no_overlay).1.raw
      two_accounts.accounts
unfolding validate get insert or_insert to_key is_reserved check_accounts committed_raw seed
two_accounts-Follows k a there = ground (arith, eq_iff "main:cash" k, eq_iff "main:sales" k, there)

try_apply_transaction-stage_example :
    (st' : BookState) × (try_apply_transaction sale 3 6 (3, 0) two_accounts ≡ some st')
    × Follows (committed_raw two_accounts.accounts) after_sale.raw st'.accounts
try_apply_transaction-stage_example =
    try_apply_transaction-stage (committed_raw two_accounts.accounts) sale 3 6 (3, 0) two_accounts
      (validate two_accounts sale no_overlay).1 sale_staged two_accounts-Follows

-- The state after the sale.
abbrev sold : BookState
sold = unwrap_or (try_apply_transaction sale 3 6 (3, 0) two_accounts) two_accounts

sale_applied : try_apply_transaction sale 3 6 (3, 0) two_accounts ≡ some sold
unfolding try_apply_transaction apply_postings update_account post_account post_raw get to_key
    checked_add checked_sub ◌+ℤ◌ ◌-ℤ◌ insert
sale_applied = refl

sale_accounts : check_accounts two_accounts.accounts sale.postings ≡ ok tt
unfolding check_accounts get to_key
sale_accounts = refl

try_apply_transaction-book_total_example :
    book_total "EUR" sold.accounts
    ≡ book_total "EUR" two_accounts.accounts +ℤ net "EUR" sale.postings
try_apply_transaction-book_total_example =
    try_apply_transaction-book_total sale 3 6 (3, 0) two_accounts "EUR" sale_accounts sale_applied

to_key_injective_example : cash ≡ record { book = "main"; path = "cash" }
to_key_injective_example = to_key_injective cash (record { book = "main"; path = "cash" }) refl
