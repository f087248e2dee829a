-- ===== src/State/Apply/Conservation.antt =====
-- Double entry: what a transaction does to the balances of the accounts of one asset.
use text.Mathlib.TextEquality.{eq_iff}
use talea.Prelude.{String, ◌≡◌, refl, ap, subst, ◌∙◌, some, List, [], ◌∷◌, arith, Option-cases}
use talea.Prelude.{inl, inr, if◌then◌else◌, Bool-cases}
use talea.Prelude.Eq.{string_eq, ◌=?◌}
use talea.Prelude.Int.{ℤ, pos, pos_part, neg_part, ◌+ℤ◌, ◌-ℤ◌, int_laws}
use talea.HashMap.{HashMap, get, insert, get-insert}
use talea.I64.{checked_add_sum, checked_sub_diff}
use talea.Result.{ok, bind_option-eq-some, some_inj}
use talea.Types.{Direction, debit, credit, Posting, Transaction, Seq, DateTime, Uuid, to_key}
use talea.State.Data.{AccountState, BookState, FramePos}
use talea.State.Validate.{post_raw, check_accounts}
use talea.State.Apply.{moved, update_account, apply_postings, try_apply_transaction}
use talea.State.Apply.{record_commit, sum_posting}

-- The debit-positive balance of an account, if it holds the asset.
unfoldable pub held : String → AccountState → ℤ
held asset a = if a.def.asset =? asset then a.raw_balance else pos 0

-- The sum of the debit-positive balances of all accounts that hold the asset.
unfoldable pub book_total : String → HashMap String AccountState → ℤ
book_total asset [] = pos 0
book_total asset ((_, a) ∷ accounts) = held asset a +ℤ book_total asset accounts

-- The debits less the credits of the postings in the asset.
abbrev pub signed : Direction → ℤ → ℤ
signed debit minor = minor
signed credit minor = pos 0 -ℤ minor

unfoldable pub net : String → List Posting → ℤ
net asset [] = pos 0
net asset (p ∷ ps) =
    (if p.amount.asset =? asset then signed p.direction p.amount.minor else pos 0) +ℤ net asset ps

post_raw-signed :
    (d : Direction) (raw minor : ℤ) {raw' : ℤ}
    → post_raw d raw minor ≡ some raw'
    → raw' ≡ raw +ℤ signed d minor
unfolding post_raw
post_raw-signed debit raw minor h = checked_add_sum raw minor h
post_raw-signed credit raw minor h = rw (checked_sub_diff raw minor h) (omega int_laws)

book_total-insert :
    (asset key : String) (a a' : AccountState) (accounts : HashMap String AccountState)
    → get key accounts ≡ some a
    → book_total asset (insert key a' accounts) +ℤ held asset a
      ≡ book_total asset accounts +ℤ held asset a'
unfolding book_total get insert
book_total-insert asset key a a' [] h = cc
book_total-insert asset key a a' ((j, b) ∷ accounts) h = elim (Bool-cases (j =? key)) [
  | inl here ↦ let e : b ≡ a = some_inj (rw here at h) in rw (here, e) (omega int_laws)
  | inr there ↦
      let ih = book_total-insert asset key a a' accounts (rw there at h) in
      rw there (omega (int_laws, ap pos_part ih, ap neg_part ih))
]

-- The tests of the accounts read their definitions only, which a posting leaves alone.
check_accounts-insert :
    (key : String) (a a' : AccountState) (accounts : HashMap String AccountState)
    (ps : List Posting)
    → get key accounts ≡ some a
    → a'.def ≡ a.def
    → check_accounts (insert key a' accounts) ps ≡ check_accounts accounts ps
unfolding check_accounts
check_accounts-insert key a a' accounts [] h e = refl
check_accounts-insert key a a' accounts (p ∷ ps) h e = ground (
  arith,
  get-insert key (to_key p.account) a' accounts,
  eq_iff key (to_key p.account),
  check_accounts-insert key a a' accounts ps h e,
)

-- The step of the sum: the account's share goes from `h` to `h'`.
total_step :
    (t t' t'' h h' s n : ℤ) → t' +ℤ h ≡ t +ℤ h' → h' ≡ h +ℤ s → t'' ≡ t' +ℤ n → t'' ≡ t +ℤ (s +ℤ n)
total_step t t' t'' h h' s n e f g = omega (
  int_laws,
  ap pos_part e,
  ap neg_part e,
  ap pos_part f,
  ap neg_part f,
  ap pos_part g,
  ap neg_part g,
)

-- A posting that passed the tests finds its account, and the account holds its asset.
pub check_accounts-cons :
    (accounts : HashMap String AccountState) (p : Posting) (ps : List Posting)
    → check_accounts accounts (p ∷ ps) ≡ ok tt
    → (a : AccountState) × (get (to_key p.account) accounts ≡ some a)
      × (p.amount.asset ≡ a.def.asset)
      × (check_accounts accounts ps ≡ ok tt)
unfolding check_accounts
check_accounts-cons accounts p ps h = elim (Option-cases (get (to_key p.account) accounts)) [
  | inl absent ↦ absurd (ground (arith, absent))
  | inr (a, e) ↦ (a, e, ground (arith, e, eq_iff p.amount.asset a.def.asset), ground (arith, e))
]

module _ (txid : Uuid) (seq : Seq) (at : DateTime) (asset : String) where
  held-moved :
      (p : Posting) (a : AccountState) {v : ℤ}
      → p.amount.asset ≡ a.def.asset
      → post_raw p.direction a.raw_balance p.amount.minor ≡ some v
      → held asset (moved txid seq at p a v)
        ≡ held asset a
          +ℤ (if p.amount.asset =? asset then signed p.direction p.amount.minor else pos 0)
  unfolding held moved
  held-moved p a e h = rw e (elim (Bool-cases (a.def.asset =? asset)) [
    | inl here ↦ rw here (post_raw-signed p.direction a.raw_balance p.amount.minor h)
    | inr there ↦ rw there (omega int_laws)
  ])

  update_account-found :
      (p : Posting) (accounts : HashMap String AccountState) (a : AccountState)
      {accounts' : HashMap String AccountState}
      → get (to_key p.account) accounts ≡ some a
      → update_account txid seq at p accounts ≡ some accounts'
      → (v : ℤ) × (post_raw p.direction a.raw_balance p.amount.minor ≡ some v)
        × (accounts' ≡ insert (to_key p.account) (moved txid seq at p a v) accounts)
  unfolding update_account
  update_account-found p accounts a e h =
      elim (Option-cases (post_raw p.direction a.raw_balance p.amount.minor)) [
        | inl overflow ↦ absurd (ground (arith, e, overflow))
        | inr (v, moves) ↦ (v, moves, ground (arith, e, moves))
      ]

  apply_postings-book_total :
      (ps : List Posting) (st : BookState) {st' : BookState}
      → check_accounts st.accounts ps ≡ ok tt
      → apply_postings txid seq at ps st ≡ some st'
      → book_total asset st'.accounts ≡ book_total asset st.accounts +ℤ net asset ps
  unfolding apply_postings net
  apply_postings-book_total [] st c h = rw (some_inj h) (omega int_laws)
  apply_postings-book_total (p ∷ ps) st c h =
      let (a, found, holds, c') = check_accounts-cons st.accounts p ps c in
      let (accounts', went, rest) =
        bind_option-eq-some (update_account txid seq at p st.accounts) _ h in
      let (v, moves, e) = update_account-found p st.accounts a found went in
      let key = to_key p.account in
      let a' = moved txid seq at p a v in
      let st₁ = record st { accounts = accounts'; sums = sum_posting p st.sums } in
      let still : check_accounts accounts' ps ≡ ok tt =
        rw e (check_accounts-insert key a a' st.accounts ps found (unfold moved in refl) ∙ c') in
      total_step (book_total asset st.accounts) (book_total asset accounts') (book_total asset _)
        (held asset a) (held asset a') _ (net asset ps)
        (rw e (book_total-insert asset key a a' st.accounts found)) (held-moved p a holds moves)
        (apply_postings-book_total ps st₁ still rest)

-- Applying a transaction whose accounts exist and hold the assets of their postings moves the sum of
-- the balances in each asset by the debits less the credits of the transaction in that asset: a
-- transaction that balances in the asset leaves the sum as it is.
pub try_apply_transaction-book_total :
    (tx : Transaction) (seq : Seq) (at : DateTime) (place : FramePos) (st : BookState)
    (asset : String) {st' : BookState}
    → check_accounts st.accounts tx.postings ≡ ok tt
    → try_apply_transaction tx seq at place st ≡ some st'
    → book_total asset st'.accounts ≡ book_total asset st.accounts +ℤ net asset tx.postings
unfolding try_apply_transaction record_commit
try_apply_transaction-book_total tx seq at place st asset c h =
    let (st₁, went, e) = bind_option-eq-some (apply_postings tx.id seq at tx.postings st) _ h in
    subst
      (λ (s : BookState).
        book_total asset s.accounts ≡ book_total asset st.accounts +ℤ net asset tx.postings)
      (some_inj e) (apply_postings-book_total tx.id seq at asset tx.postings st c went)
