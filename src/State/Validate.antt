-- ===== src/State/Validate.antt =====
-- `BookState::validate` and `Scratch::stage` of talea-store-log/src/state.rs. The text of an overflow
-- message names the account.
pub mod Staging
pub mod MinBalance
use Prim.Native.String.{◌++◌}
use talea.Prelude.{String, ◌≡◌, Bool, true, false, Option, none, some, List, [], ◌∷◌}
use talea.Prelude.{if◌then◌else◌}
use talea.Prelude.Eq.{string_eq, ◌=?◌}
use talea.Prelude.Int.{ℤ, pos, ltb_ℤ}
use talea.HashMap
use talea.HashMap.{HashMap, get, insert, or_insert}
use talea.I64.{checked_add, checked_sub}
use talea.Result.{Result, ok, err, ok_or, bind_option, unwrap_or, ◌>>=◌, ◌>>◌}
use talea.Types.{Direction, debit, credit, Posting, Transaction, StoreError, to_key, is_reserved}
use talea.Types.{unknown_account, asset_mismatch, constraint_violation, invalid_book, io}
use talea.State.Data.{AccountState, BookState, Scratch, effective}

-- A posting moves a balance that is counted debit-positive.
unfoldable pub post_raw : Direction → ℤ → ℤ → Option ℤ
post_raw debit raw minor = checked_add raw minor
post_raw credit raw minor = checked_sub raw minor

-- Steps 2 and 3 of `validate`: every account exists and holds the asset of its posting.
unfoldable pub check_accounts :
    HashMap String AccountState → List Posting → Result StoreError (Unit {0})
check_accounts accounts [] = ok tt
check_accounts accounts (p ∷ ps) = do
  acct ← ok_or (get (to_key p.account) accounts) (unknown_account p.account)
  if p.amount.asset =? acct.def.asset
      then check_accounts accounts ps
      else err (asset_mismatch p.account acct.def.asset p.amount.asset)

-- `self.accounts.get(&key).map(|a| a.raw_balance).unwrap_or(0)`
unfoldable pub committed_raw : HashMap String AccountState → String → ℤ
committed_raw accounts key = elim (get key accounts) [ none ↦ pos 0 | some a ↦ a.raw_balance ]

-- The loop that seeds the overlay with the committed balances.
unfoldable pub seed :
    HashMap String AccountState → List Posting → HashMap String ℤ → HashMap String ℤ
unfolding committed_raw
seed accounts [] raw = raw
seed accounts (p ∷ ps) raw =
    let key = to_key p.account in seed accounts ps (or_insert key (committed_raw accounts key) raw)

-- The loop that projects this transaction, in a map of its own.
unfoldable pub project :
    HashMap String ℤ → List Posting → HashMap String ℤ → Result StoreError (HashMap String ℤ)
project raw [] projected = ok projected
project raw (p ∷ ps) projected = do
  let key = to_key p.account
  let base = unwrap_or (get key raw) (pos 0)
  let entry = unwrap_or (get key projected) base
  entry' ←
      ok_or (post_raw p.direction entry p.amount.minor)
        (io ("posting delta overflow for account " ++ key))
  project raw ps (insert key entry' projected)

-- The test of one account; its index is in the map, by `check_accounts`, or the code panics.
unfoldable pub check_min : Option AccountState → ℤ → Result StoreError (Unit {0})
check_min none proj_raw = err (io "panic: no entry found for key")
check_min (some acct) proj_raw = elim acct.cfg.min_balance [
  | none ↦ ok tt
  | some min ↦
      let would_be = effective proj_raw acct.cfg.normal_side in
      if ltb_ℤ would_be min then err (constraint_violation acct.def.id min would_be) else ok tt
]

-- The loop over the projected balances.
unfoldable pub check_projected :
    HashMap String AccountState → HashMap String ℤ → Result StoreError (Unit {0})
check_projected accounts [] = ok tt
check_projected accounts ((key, proj_raw) ∷ rest) = do
  check_min (get key accounts) proj_raw
  check_projected accounts rest

-- `validate`: the overlay is a `&mut` argument, so it comes back beside the verdict. It is seeded
-- once the accounts have passed, whatever the later tests say.
unfoldable pub validate : BookState → Transaction → Scratch → Result StoreError (Unit {0}) × Scratch
validate st tx scratch =
    if is_reserved tx.book
    then (err (invalid_book tx.book), scratch)
    else elim (check_accounts st.accounts tx.postings) [
      | err e ↦ (err e, scratch)
      | ok _ ↦
          let raw = seed st.accounts tx.postings scratch.raw in
          (
            (do projected ← project raw tx.postings []; check_projected st.accounts projected),
            record scratch { raw = raw },
          )
    ]

-- The loop of `stage`; `none` is either of its two errors.
unfoldable pub stage_postings : List Posting → HashMap String ℤ → Option (HashMap String ℤ)
stage_postings [] raw = some raw
stage_postings (p ∷ ps) raw =
    let key = to_key p.account in
    bind_option (get key raw) λ r.
      bind_option (post_raw p.direction r p.amount.minor)
        λ r'. stage_postings ps (insert key r' raw)

-- `Scratch::stage`
unfoldable pub stage : Transaction → Scratch → Option Scratch
stage tx scratch =
    bind_option (stage_postings tx.postings scratch.raw) λ raw. some (record scratch { raw = raw })
