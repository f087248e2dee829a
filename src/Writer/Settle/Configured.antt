-- ===== src/Writer/Settle/Configured.antt =====
-- Applying events closes no account and changes no account's configuration.
use talea.Prelude.{◌≡◌, refl, subst, sym, ap, ◌∙◌, String, none, some}
use talea.Prelude.{List, [], ◌∷◌, arith, Option-cases, inl, inr, ◌⊎◌}
use talea.Prelude.Eq.{string_eq}
use talea.HashMap.{HashMap, get, insert, or_insert, get-insert, get-insert_cases, get-or_insert}
use talea.Result.{bind_option-eq-some, some_inj}
use talea.Types.{Posting, LedgerEvent}
use talea.Types.{DateTime, Seq, Uuid, asset_registered, account_opened, transaction_posted, to_key}
use talea.State.{AccountState, BookState, FramePos}
use talea.State.Validate.{post_raw}
use talea.State.Apply.{moved, post_account, update_account, apply_postings, try_apply_transaction}
use talea.State.Apply.{record_commit, apply_account_opened, bump_seq}
use talea.Writer.Classify.{Staged}
use talea.Writer.Settle.{apply_event, apply_staged}

-- The accounts of `base` are all there, with their configuration.
pub record Extends (base accounts : HashMap String AccountState) : Type 0 where
  pub known : (k : String) → get k accounts ≡ none → get k base ≡ none
  pub configured :
      (k : String) (a' : AccountState)
      → get k accounts ≡ some a'
      → (get k base ≡ none) ⊎ ((a : AccountState) × (get k base ≡ some a) × (a'.cfg ≡ a.cfg))

pub Extends-self : (base : HashMap String AccountState) → Extends base base
Extends-self base = record { known = λ k h. h; configured = λ k a h. inr (a, h, refl) }

post_account-cfg :
    (txid : Uuid) (seq : Seq) (at : DateTime) (p : Posting) (a : AccountState) {a' : AccountState}
    → post_account txid seq at p a ≡ some a'
    → a'.cfg ≡ a.cfg
unfolding post_account moved
post_account-cfg txid seq at p a e =
    let (raw, _, is_moved) =
      bind_option-eq-some (post_raw p.direction a.raw_balance p.amount.minor) _ e in
    ap (λ (x : AccountState). x.cfg) (sym (some_inj is_moved))

module _ (base : HashMap String AccountState) where
  Extends-insert :
      (accounts : HashMap String AccountState) (key : String) (a a' : AccountState)
      → get key accounts ≡ some a
      → a'.cfg ≡ a.cfg
      → Extends base accounts
      → Extends base (insert key a' accounts)
  Extends-insert accounts key a a' there same h = record {
    known = λ k absent. h.known k (ground (arith, get-insert key k a' accounts));
    configured = λ k c e. elim (get-insert_cases key k a' accounts e) [
      | inr old ↦ h.configured k c old
      | inl (is_key, is_new) ↦ elim (h.configured k a (rw is_key at there)) [
        | inl absent ↦ inl absent
        | inr (o, at_base, kept) ↦
            inr (o, at_base, ap (λ (x : AccountState). x.cfg) (sym is_new) ∙ same ∙ kept)
      ]
    ];
  }

  Extends-open :
      (accounts : HashMap String AccountState) (key : String) (a : AccountState)
      → Extends base accounts
      → Extends base (or_insert key a accounts)
  Extends-open accounts key a h = record {
    known = λ k absent. h.known k (ground (arith, get-or_insert key k a accounts));
    configured = λ k c e. elim (Option-cases (get k accounts)) [
      | inl absent ↦ inl (h.known k absent)
      | inr (o, old) ↦ h.configured k c (ground (arith, get-or_insert key k a accounts))
    ];
  }

  Extends-update :
      (txid : Uuid) (seq : Seq) (at : DateTime) (p : Posting)
      (accounts : HashMap String AccountState) {accounts' : HashMap String AccountState}
      → update_account txid seq at p accounts ≡ some accounts'
      → Extends base accounts
      → Extends base accounts'
  unfolding update_account
  Extends-update txid seq at p accounts {accounts'} e h =
      elim (Option-cases (get (to_key p.account) accounts)) [
        | inl absent ↦ subst (Extends base) (some_inj (rw (update_account, absent) at e)) h
        | inr (a, there) ↦
            let (a', posted, e') =
              bind_option-eq-some (post_account txid seq at p a) _
                (rw (update_account, there) at e) in
            subst (Extends base) (some_inj e') (
              Extends-insert accounts (to_key p.account) a a' there
                (post_account-cfg txid seq at p a posted) h)
      ]

  Extends-postings :
      (txid : Uuid) (seq : Seq) (at : DateTime) (ps : List Posting) (st : BookState)
      {st' : BookState}
      → apply_postings txid seq at ps st ≡ some st'
      → Extends base st.accounts
      → Extends base st'.accounts
  unfolding apply_postings
  Extends-postings txid seq at [] st e h =
      subst (λ (c : BookState). Extends base c.accounts) (some_inj e) h
  Extends-postings txid seq at (p ∷ ps) st e h =
      let (accounts', one, rest) =
        bind_option-eq-some (update_account txid seq at p st.accounts) _ e in
      Extends-postings txid seq at ps _ rest (Extends-update txid seq at p st.accounts one h)

  Extends-event :
      (event : LedgerEvent) (seq : Seq) (at : DateTime) (place : FramePos) (st : BookState)
      {st' : BookState}
      → apply_event (record { seq = seq; at = at; event = event }) place st ≡ some st'
      → Extends base st.accounts
      → Extends base st'.accounts
  unfolding apply_event try_apply_transaction record_commit apply_account_opened bump_seq
  Extends-event (transaction_posted tx) seq at place st e h =
      let (st₁, went, f) = bind_option-eq-some (apply_postings tx.id seq at tx.postings st) _ e in
      subst (λ (c : BookState). Extends base c.accounts) (some_inj f)
        (Extends-postings tx.id seq at tx.postings st went h)
  Extends-event (account_opened def cfg) seq at place st e h =
      subst (λ (c : BookState). Extends base c.accounts) (some_inj e)
        (Extends-open st.accounts (to_key def.id) _ h)
  Extends-event (asset_registered def) seq at place st e h =
      subst (λ (c : BookState). Extends base c.accounts) (some_inj e) h

  -- What a batch is applied to keeps its accounts and their configuration.
  pub apply_staged-Extends :
      (xs : List Staged) (st : BookState) {st' : BookState}
      → apply_staged xs st ≡ some st'
      → Extends base st.accounts
      → Extends base st'.accounts
  unfolding apply_staged
  apply_staged-Extends [] st e h = subst (λ (c : BookState). Extends base c.accounts) (some_inj e) h
  apply_staged-Extends (x ∷ xs) st e h =
      let (st₁, one, rest) = bind_option-eq-some (apply_event x.wire x.place st) _ e in
      apply_staged-Extends xs st₁ rest
        (Extends-event x.wire.event x.wire.seq x.wire.at x.place st one h)
