-- ===== src/Store/Reads/AsOf.antt =====
-- The balance as of a time that no posting is later than is the current balance: the last entry of a
-- history has the balance and the number that the account has.
use talea.Prelude.{ℕ, suc, ◌≤◌, ◌≡◌, refl, sym, ◌∙◌, ap, subst, String, ◌⊎◌}
use talea.Prelude.{inl, inr, true, Option, none, some, List, [], ◌∷◌, ◌++◌, All, leb}
use talea.Prelude.{length, get_elem?, arith, Option-cases}
use talea.Prelude.Int.{ℤ, pos, neg}
use talea.Prelude.Eq.{string_eq}
use talea.HashMap.{HashMap, get, get-insert_cases}
use talea.I64.{wrapping_neg}
use talea.Result.{some_inj, bind_option-eq-some}
use talea.Types.{Seq, DateTime, Uuid, Posting, Transaction, Direction, debit, credit, to_key}
use talea.State.{AccountState, BookState, PostingEntry, FramePos, effective}
use talea.State.PostingIndex.{last?, partition_point, serialize, partition_point_at}
use talea.State.PostingIndex.Laws.{IsChunked, push-IsChunked, serialize-push, get-serialize}
use talea.State.PostingIndex.Search.{IsAscending, partition_point_at-serialize}
use talea.State.Apply.{try_apply_transaction, apply_postings, update_account, post_account, moved}
use talea.State.Apply.{record_commit}
use talea.State.Validate.{post_raw}
use talea.Store.Data.{BalanceSnapshot}
use talea.Store.Reads.{balance_at, entry_before}

-- The account has the balance and the number of the last entry of its history, or no entry.
pub record IsTracked (acct : AccountState) : Type 0 where
  pub chunked : IsChunked acct.postings
  pub latest :
      ((serialize acct.postings ≡ []) × (acct.raw_balance ≡ pos 0) × (acct.updated_seq ≡ 0))
      ⊎ ((e : PostingEntry) × (last? (serialize acct.postings) ≡ some e)
          × (e.raw_after ≡ acct.raw_balance)
          × (e.seq ≡ acct.updated_seq))

last?-append_one : (xs : List PostingEntry) (e : PostingEntry) → last? (xs ++ (e ∷ [])) ≡ some e
last?-append_one [] e = refl
last?-append_one (x ∷ []) e = refl
last?-append_one (x ∷ y ∷ xs) e = last?-append_one (y ∷ xs) e

post_account-IsTracked :
    (txid : Uuid) (seq : Seq) (at : DateTime) (p : Posting) (acct : AccountState)
    {acct' : AccountState}
    → IsTracked acct
    → post_account txid seq at p acct ≡ some acct'
    → IsTracked acct'
unfolding post_account moved
post_account-IsTracked txid seq at p acct tracked e =
    let (raw, _, done) =
      bind_option-eq-some (post_raw p.direction acct.raw_balance p.amount.minor) _ e in
    let entry : PostingEntry = record {
      seq = seq;
      at = at;
      txid = txid;
      minor = p.amount.minor;
      direction = p.direction;
      raw_after = raw;
    } in
    subst (IsTracked) (some_inj done) (record {
      chunked = push-IsChunked acct.postings entry tracked.chunked;
      latest = inr (
        entry,
        ap last? (serialize-push acct.postings entry)
            ∙ last?-append_one (serialize acct.postings) entry,
        refl,
        refl,
      );
    })

-- All accounts of a map are so.
abbrev pub Tracked : HashMap String AccountState → Type 0
Tracked accounts =
    (key : String) (acct : AccountState) → get key accounts ≡ some acct → IsTracked acct

update_account-Tracked :
    (txid : Uuid) (seq : Seq) (at : DateTime) (p : Posting) (accounts : HashMap String AccountState)
    {accounts' : HashMap String AccountState}
    → Tracked accounts
    → update_account txid seq at p accounts ≡ some accounts'
    → Tracked accounts'
unfolding update_account
update_account-Tracked txid seq at p accounts tracked e =
    elim (Option-cases (get (to_key p.account) accounts)) [
      | inl absent ↦ subst (Tracked) (some_inj (rw (absent, update_account) at e)) tracked
      | inr (acct, there) ↦
          let e' = rw (there, update_account) at e in
          let (acct', posted, done) = bind_option-eq-some (post_account txid seq at p acct) _ e' in
          let new = post_account-IsTracked txid seq at p acct (tracked _ acct there) posted in
          subst (Tracked) (some_inj done) (λ key other found.
            elim (get-insert_cases (to_key p.account) key acct' accounts found) [
              | inl (_, value) ↦ subst (IsTracked) value new
              | inr old ↦ tracked key other old
            ])
    ]

apply_postings-Tracked :
    (txid : Uuid) (seq : Seq) (at : DateTime) (ps : List Posting) (st : BookState) {st' : BookState}
    → Tracked st.accounts
    → apply_postings txid seq at ps st ≡ some st'
    → Tracked st'.accounts
unfolding apply_postings
apply_postings-Tracked txid seq at [] st tracked e =
    subst (λ (s : BookState). Tracked s.accounts) (some_inj e) tracked
apply_postings-Tracked txid seq at (p ∷ ps) st tracked e =
    let (accounts', one, rest) =
      bind_option-eq-some (update_account txid seq at p st.accounts) _ e in
    apply_postings-Tracked txid seq at ps _
      (update_account-Tracked txid seq at p st.accounts tracked one) rest

-- Let every account of a state have the balance and the number of the last entry of its history, or no
-- entry, the balance 0 and the number 0, and a well-formed index. Then so has every account of the state
-- after a transaction that applies.
pub try_apply_transaction-Tracked :
    (tx : Transaction) (seq : Seq) (at : DateTime) (place : FramePos) (st : BookState)
    {st' : BookState}
    → Tracked st.accounts
    → try_apply_transaction tx seq at place st ≡ some st'
    → Tracked st'.accounts
unfolding try_apply_transaction record_commit
try_apply_transaction-Tracked tx seq at place st tracked e =
    let (st1, applies, done) =
      bind_option-eq-some (apply_postings tx.id seq at tx.postings st) _ e in
    subst (λ (s : BookState). Tracked s.accounts) (some_inj done)
      (apply_postings-Tracked tx.id seq at tx.postings st tracked applies)

-- All entries pass the test, so the point is past them all.
partition_point-eq-length :
    (t : DateTime) (xs : List PostingEntry)
    → All (λ e. e.at ≤ t) xs
    → partition_point (λ e. leb e.at t) xs ≡ length xs
partition_point-eq-length t [] h = refl
partition_point-eq-length t (x ∷ xs) h =
    let first : leb x.at t ≡ true = ground (arith, h.0) in
    rw (first, partition_point-eq-length t xs h.1) refl

get_elem?-last :
    (x : PostingEntry) (xs : List PostingEntry) → get_elem? (x ∷ xs) (length xs) ≡ last? (x ∷ xs)
get_elem?-last x [] = refl
get_elem?-last x (y ∷ xs) = get_elem?-last y xs

effective_zero : (side : Option Direction) → effective (pos 0) side ≡ pos 0
unfolding effective wrapping_neg neg
effective_zero none = refl
effective_zero (some debit) = refl
effective_zero (some credit) = refl

last-get_elem? :
    (xs : List PostingEntry) {e : PostingEntry}
    → last? xs ≡ some e
    → (n : ℕ) × (length xs ≡ suc n) × (get_elem? xs n ≡ some e)
last-get_elem? [] h = absurd (cc h)
last-get_elem? (x ∷ xs) h = (length xs, refl, get_elem?-last x xs ∙ h)

abbrev snapshot : AccountState → ℤ → Seq → BalanceSnapshot
snapshot acct minor seq = record {
  amount = record { minor = minor; asset = acct.def.asset };
  updated_seq = seq;
}

-- Let an account have the balance and the number of the last entry of its history, or no entry, the balance
-- 0 and the number 0, and a well-formed index in the order of the times. Then its balance as of a time that
-- no entry is later than is its current balance, with the same number.
pub balance_at-latest :
    (acct : AccountState) (t : DateTime)
    → IsTracked acct
    → IsAscending (λ e. e.at) (serialize acct.postings)
    → All (λ e. e.at ≤ t) (serialize acct.postings)
    → balance_at acct (some t) ≡ balance_at acct none
unfolding balance_at entry_before
balance_at-latest acct t tracked ascending early =
    let side = acct.cfg.normal_side in
    let point =
      partition_point_at-serialize acct.postings t tracked.chunked ascending
      ∙ partition_point-eq-length t (serialize acct.postings) early in
    elim tracked.latest [
      | inl (empty, zero_raw, zero_seq) ↦
          let start : partition_point_at acct.postings t ≡ 0 = point ∙ ap length empty in
          let no_raw = sym (effective_zero side) ∙ ap (λ r. effective r side) (sym zero_raw) in
          rw (start, balance_at)
            (ap (λ m. snapshot acct m 0) no_raw
              ∙ ap (snapshot acct (effective acct.raw_balance side)) (sym zero_seq))
      | inr (e, last, raw, seq) ↦
          let (n, len, at_n) = last-get_elem? (serialize acct.postings) last in
          let found = get-serialize acct.postings n tracked.chunked ∙ at_n in
          rw (point, len, found, balance_at)
            (ap (λ r. snapshot acct (effective r side) e.seq) raw
              ∙ ap (snapshot acct (effective acct.raw_balance side)) seq)
    ]
