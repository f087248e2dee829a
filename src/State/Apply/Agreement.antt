-- ===== src/State/Apply/Agreement.antt =====
-- Applying a staged transaction: the state follows the overlay, so the balances cannot overflow.
use text.Mathlib.TextEquality.{eq_iff}
use talea.Prelude.{String, ◌≡◌, refl, subst, none, some, List, [], ◌∷◌, arith, Option-cases}
use talea.Prelude.{inl, inr}
use talea.Prelude.Eq.{string_eq}
use talea.Prelude.Int.{ℤ}
use talea.HashMap.{HashMap, get, insert, get-insert}
use talea.Result.{unwrap_or, bind_option-eq-some, some_inj}
use talea.Types.{Posting, Transaction, Seq, DateTime, Uuid, to_key}
use talea.State.Data.{AccountState, BookState, Scratch, FramePos}
use talea.State.Validate.{post_raw, stage_postings, stage}
use talea.State.Apply.{
  moved, record_commit, sum_posting, post_account, update_account, apply_postings,
  try_apply_transaction,
}

-- Each balance of the state is the one in the overlay, or the one of `base` where the overlay has no
-- entry.
abbrev pub Follows : (String → ℤ) → HashMap String ℤ → HashMap String AccountState → Type 0
Follows base raw accounts =
    (k : String) (a : AccountState)
    → get k accounts ≡ some a
    → a.raw_balance ≡ unwrap_or (get k raw) (base k)

module _ (base : String → ℤ) where
  Follows-insert :
      (raw : HashMap String ℤ) (accounts : HashMap String AccountState) (key : String) (v : ℤ)
      (acct : AccountState)
      → acct.raw_balance ≡ v
      → Follows base raw accounts
      → Follows base (insert key v raw) (insert key acct accounts)
  Follows-insert raw accounts key v acct same h k a f =
      ground (arith, get-insert key k v raw, get-insert key k acct accounts, h k a)

  Follows-skip :
      (raw : HashMap String ℤ) (accounts : HashMap String AccountState) (key : String) (v : ℤ)
      → get key accounts ≡ none
      → Follows base raw accounts
      → Follows base (insert key v raw) accounts
  Follows-skip raw accounts key v absent h k a f =
      ground (arith, get-insert key k v raw, eq_iff key k, h k a)

module _ (base : String → ℤ) (txid : Uuid) (seq : Seq) (at : DateTime) where
  -- One posting: the account moves by what the overlay moves by.
  update_account-Follows :
      (p : Posting) (raw : HashMap String ℤ) (accounts : HashMap String AccountState) {r v : ℤ}
      → get (to_key p.account) raw ≡ some r
      → post_raw p.direction r p.amount.minor ≡ some v
      → Follows base raw accounts
      → (accounts' : HashMap String AccountState) × (update_account txid seq at p accounts
          ≡ some accounts')
        × Follows base (insert (to_key p.account) v raw) accounts'
  unfolding update_account post_account
  update_account-Follows p raw accounts {r} {v} er ev h =
      let key = to_key p.account in
      elim (Option-cases (get key accounts)) [
        | inl absent ↦
            (accounts, ground (arith, absent), Follows-skip base raw accounts key v absent h)
        | inr (a, found) ↦
            let same : a.raw_balance ≡ r = rw er at (h key a found) in
            (
              insert key (moved txid seq at p a v) accounts,
              ground (arith, found, same),
              Follows-insert base raw accounts key v (moved txid seq at p a v)
                  (unfold moved in refl) h,
            )
      ]

  -- The whole loop succeeds, and the state still follows the overlay.
  apply_postings-Follows :
      (ps : List Posting) (raw : HashMap String ℤ) (st : BookState) {raw' : HashMap String ℤ}
      → stage_postings ps raw ≡ some raw'
      → Follows base raw st.accounts
      → (st' : BookState) × (apply_postings txid seq at ps st ≡ some st')
        × Follows base raw' st'.accounts
  unfolding apply_postings stage_postings
  apply_postings-Follows [] raw st h agrees =
      (st, refl, subst (λ m. Follows base m st.accounts) (some_inj h) agrees)
  apply_postings-Follows (p ∷ ps) raw st h agrees =
      let (r, er, h') = bind_option-eq-some (get (to_key p.account) raw) _ h in
      let (v, ev, h'') = bind_option-eq-some (post_raw p.direction r p.amount.minor) _ h' in
      let (accounts', went, kept) = update_account-Follows p raw st.accounts er ev agrees in
      let moved_st = record st { accounts = accounts'; sums = sum_posting p st.sums } in
      rw went (apply_postings-Follows ps (insert (to_key p.account) v raw) moved_st h'' kept)

-- If a transaction can be staged on an overlay, and each balance of a state is the one of the overlay, or
-- of a base where the overlay has none, then the transaction is applied to the state without an
-- overflow, and each balance is then the one of the staged overlay, or of the base.
pub try_apply_transaction-stage :
    (base : String → ℤ) (tx : Transaction) (seq : Seq) (at : DateTime) (place : FramePos)
    (st : BookState) (scratch : Scratch) {staged : Scratch}
    → stage tx scratch ≡ some staged
    → Follows base scratch.raw st.accounts
    → (st' : BookState) × (try_apply_transaction tx seq at place st ≡ some st')
      × Follows base staged.raw st'.accounts
unfolding stage try_apply_transaction record_commit
try_apply_transaction-stage base tx seq at place st scratch h agrees =
    let (raw, er, e) = bind_option-eq-some (stage_postings tx.postings scratch.raw) _ h in
    let (st', went, kept) =
      apply_postings-Follows base tx.id seq at tx.postings scratch.raw st er agrees in
    (
      record_commit tx seq at place st',
      rw went refl,
      subst (λ (c : Scratch). Follows base c.raw st'.accounts) (some_inj e) kept,
    )
