-- ===== src/Writer/Settle/Dedup.antt =====
-- Idempotency within a batch and across batches.
use talea.Prelude.{ℕ, ◌+◌, ◌≡◌, ◌≢◌, refl, subst, sym, ap, ◌∙◌, String, none, some}
use talea.Prelude.{List, [], ◌∷◌, ◌++◌, length, get_elem?, inl, inr}
use talea.Prelude.Eq.{string_eq}
use talea.Prelude.Seqs.{get_elem?-append_left, get_elem?-append_last, get_elem?-append_cases}
use talea.HashMap.{HashMap, get, insert, get-insert_self, get-insert_cases, get-insert_new}
use talea.Result.{bind_option-eq-some, some_inj}
use talea.Types.{Transaction, LedgerEvent, DateTime}
use talea.Types.{asset_registered, account_opened, transaction_posted}
use talea.Idem.{CommittedRec}
use talea.State.{BookState, Scratch}
use talea.State.Validate.{validate, stage, stage_postings}
use talea.State.Validate.Staging.{validate-scratch}
use talea.Writer.Classify.{
  Job, Staged, Reply, Batch, commit, open_account, register_asset, snapshot,
}
use talea.Writer.Classify.{start_batch, accept, reply_with, with_staged}
use talea.Writer.Classify.{classify_job, classify_from, classify}
use talea.Writer.Classify.Cases.{Decided, classify_commit-cases, classify_open-cases, record_of}

-- The slot holds a transaction with the key.
abbrev pub Posts : List Staged → ℕ → String → Type 0
Posts staged slot key =
    (s : Staged) × (tx : Transaction) × (get_elem? staged slot ≡ some s)
    × (s.wire.event ≡ transaction_posted tx)
    × (tx.idempotency_key ≡ key)

Posts-append :
    (staged : List Staged) (s : Staged) (slot : ℕ) (key : String)
    → Posts staged slot key
    → Posts (staged ++ (s ∷ [])) slot key
Posts-append staged s slot key (t, tx, e, f, k) =
    (t, tx, get_elem?-append_left staged (s ∷ []) slot e, f, k)

-- What the loop keeps of the keys: a key leads to its transaction, a transaction is where its key
-- leads to, and no batch before had its key.
pub record IsDeduped (st : BookState) (disk : HashMap String CommittedRec) (b : Batch)
    : Type 0 where
  pub slots :
      (key : String) (slot : ℕ) → get key b.scratch.idem ≡ some slot → Posts b.staged slot key
  pub leads :
      (slot : ℕ) (s : Staged) (tx : Transaction)
      → get_elem? b.staged slot ≡ some s
      → s.wire.event ≡ transaction_posted tx
      → (get tx.idempotency_key b.scratch.idem ≡ some slot)
        × (record_of tx.idempotency_key st disk ≡ none)

stage-idem :
    (tx : Transaction) (scratch : Scratch) {staged : Scratch}
    → stage tx scratch ≡ some staged
    → staged.idem ≡ scratch.idem
unfolding stage
stage-idem tx scratch e =
    let (raw, _, e') = bind_option-eq-some (stage_postings tx.postings scratch.raw) _ e in
    ap (λ (c : Scratch). c.idem) (sym (some_inj e'))

validate-idem :
    (st : BookState) (tx : Transaction) (scratch : Scratch)
    → (validate st tx scratch).1.idem ≡ scratch.idem
validate-idem st tx scratch = elim (validate-scratch st tx scratch) [
  | inl same ↦ ap (λ (c : Scratch). c.idem) same
  | inr (_, same) ↦ ap (λ (c : Scratch). c.idem) same
]

posted_inj : {tx t : Transaction} → transaction_posted tx ≡ transaction_posted t → tx ≡ t
posted_inj h = cc

module _ (st : BookState) (disk : HashMap String CommittedRec) where
  -- A batch with the same staged events and the same keys.
  same-IsDeduped :
      (b b' : Batch)
      → b'.staged ≡ b.staged
      → b'.scratch.idem ≡ b.scratch.idem
      → IsDeduped st disk b
      → IsDeduped st disk b'
  same-IsDeduped b b' same keys h = record {
    slots = λ key slot e. rw same (h.slots key slot (rw keys at e));
    leads = λ slot s tx e f. rw keys (h.leads slot s tx (rw same at e) f);
  }

  -- An event that is no transaction.
  other-IsDeduped :
      (idx : ℕ) (now : DateTime) (event : LedgerEvent) (b : Batch)
      → ((tx : Transaction) → event ≢ transaction_posted tx)
      → IsDeduped st disk b
      → IsDeduped st disk (accept idx now event b)
  unfolding accept
  other-IsDeduped idx now event b other h = record {
    slots = λ key slot e. Posts-append b.staged _ slot key (h.slots key slot e);
    leads = λ slot s tx e f. elim (get_elem?-append_cases b.staged _ slot e) [
      | inl old ↦ h.leads slot s tx old f
      | inr (_, last) ↦ absurd (other tx (ap (λ (t : Staged). t.wire.event) last ∙ f))
    ];
  }

  -- A transaction with a new key.
  commit-IsDeduped :
      (idx : ℕ) (now : DateTime) (tx : Transaction) (b : Batch) (scratch : Scratch)
      → scratch.idem ≡ b.scratch.idem
      → record_of tx.idempotency_key st disk ≡ none
      → get tx.idempotency_key b.scratch.idem ≡ none
      → IsDeduped st disk b
      → IsDeduped st disk (accept idx now (transaction_posted tx) (with_staged tx scratch b))
  unfolding accept
  commit-IsDeduped idx now tx b scratch keys new fresh h = rw keys (record {
    slots = λ key slot e.
        elim (get-insert_cases tx.idempotency_key key (length b.staged) b.scratch.idem e) [
          | inl (same, at_end) ↦ (_, tx, get_elem?-append_last b.staged _ slot at_end, refl, same)
          | inr old ↦ Posts-append b.staged _ slot key (h.slots key slot old)
        ];
    leads = λ slot s t e f. elim (get_elem?-append_cases b.staged _ slot e) [
      | inl old ↦
          let (here, none_before) = h.leads slot s t old f in
          (
            get-insert_new tx.idempotency_key t.idempotency_key (length b.staged) b.scratch.idem
                fresh here,
            none_before,
          )
      | inr (at_end, last) ↦
          let same : tx ≡ t = posted_inj (ap (λ (x : Staged). x.wire.event) last ∙ f) in
          subst
            (λ (x : Transaction).
              (get x.idempotency_key (insert tx.idempotency_key (length b.staged) b.scratch.idem)
                ≡ some slot)
              × (record_of x.idempotency_key st disk ≡ none))
            same
            (
              get-insert_self tx.idempotency_key (length b.staged) b.scratch.idem
                  ∙ ap some (sym at_end),
              new,
            )
    ];
  })

  Decided-IsDeduped :
      (idx : ℕ) (now : DateTime) (tx : Transaction) (b b' : Batch)
      → record_of tx.idempotency_key st disk ≡ none
      → get tx.idempotency_key b.scratch.idem ≡ none
      → Decided idx now tx b (validate st tx b.scratch).0 (validate st tx b.scratch).1 b'
      → IsDeduped st disk b
      → IsDeduped st disk b'
  unfolding reply_with
  Decided-IsDeduped idx now tx b b' new fresh (inl (e, _, same)) h =
      same-IsDeduped b b' (rw same refl) (rw same (validate-idem st tx b.scratch)) h
  Decided-IsDeduped idx now tx b b' new fresh (inr (staged, _, went, same)) h = rw same (
      commit-IsDeduped idx now tx b staged
        (stage-idem tx (validate st tx b.scratch).1 went ∙ validate-idem st tx b.scratch) new fresh
        h)

  reply-IsDeduped :
      (r : Reply) (b : Batch) → IsDeduped st disk b → IsDeduped st disk (reply_with r b)
  unfolding reply_with
  reply-IsDeduped r b h = same-IsDeduped b (reply_with r b) refl refl h

  pub classify_job-IsDeduped :
      (idx : ℕ) (now : DateTime) (job : Job) (b : Batch) {b' : Batch}
      → classify_job st disk idx now job b ≡ some b'
      → IsDeduped st disk b
      → IsDeduped st disk b'
  unfolding classify_job
  classify_job-IsDeduped idx now (commit tx) b {b'} e h =
      elim (classify_commit-cases idx now tx b st disk e) [
        | inl (r, same, _) ↦ rw same (reply-IsDeduped r b h)
        | inr (new, fresh, decided) ↦ Decided-IsDeduped idx now tx b b' new fresh decided h
      ]
  classify_job-IsDeduped idx now (open_account def cfg) b e h =
      subst (IsDeduped st disk) (some_inj e) (elim (classify_open-cases st idx now def cfg b) [
        | inl (r, same, _) ↦ rw same (reply-IsDeduped r b h)
        | inr (_, same) ↦ rw same (other-IsDeduped idx now (account_opened def cfg) b (λ tx. cc) h)
      ])
  classify_job-IsDeduped idx now (register_asset def) b e h =
      subst (IsDeduped st disk) (some_inj e)
        (other-IsDeduped idx now (asset_registered def) b (λ tx. cc) h)
  classify_job-IsDeduped idx now snapshot b {b'} e h =
      subst (IsDeduped st disk) (some_inj e) (same-IsDeduped b _ refl refl h)

  classify_from-IsDeduped :
      (idx : ℕ) (jobs : List (Job × DateTime)) (b : Batch) {b' : Batch}
      → classify_from st disk idx jobs b ≡ some b'
      → IsDeduped st disk b
      → IsDeduped st disk b'
  unfolding classify_from
  classify_from-IsDeduped idx [] b e h = subst (IsDeduped st disk) (some_inj e) h
  classify_from-IsDeduped idx ((job, now) ∷ jobs) b e h =
      let (b₁, one, rest) = bind_option-eq-some (classify_job st disk idx now job b) _ e in
      classify_from-IsDeduped (idx + 1) jobs b₁ rest (classify_job-IsDeduped idx now job b one h)

  pub start-IsDeduped : (now : DateTime) → IsDeduped st disk (start_batch st now)
  unfolding start_batch get
  start-IsDeduped now = record { slots = λ key slot e. cc; leads = λ slot s tx e f. cc }

-- A transaction that a batch stages has a key that no earlier batch committed, as far as the hot tier
-- and the resolved disk lookups of the batch tell.
pub classify-fresh :
    (st : BookState) (disk : HashMap String CommittedRec) (now : DateTime)
    (jobs : List (Job × DateTime)) {b : Batch} (i : ℕ) (s : Staged) (tx : Transaction)
    → classify st disk now jobs ≡ some b
    → get_elem? b.staged i ≡ some s
    → s.wire.event ≡ transaction_posted tx
    → record_of tx.idempotency_key st disk ≡ none
unfolding classify
classify-fresh st disk now jobs i s tx e at_i is_tx =
    let h =
      classify_from-IsDeduped st disk 0 jobs (start_batch st now) e (start-IsDeduped st disk now) in
    (h.leads i s tx at_i is_tx).1

-- Two transactions that a batch stages have the same idempotency key only if they are the same one.
pub classify-dedup :
    (st : BookState) (disk : HashMap String CommittedRec) (now : DateTime)
    (jobs : List (Job × DateTime)) {b : Batch} (i j : ℕ) (s t : Staged) (tx ty : Transaction)
    → classify st disk now jobs ≡ some b
    → get_elem? b.staged i ≡ some s
    → s.wire.event ≡ transaction_posted tx
    → get_elem? b.staged j ≡ some t
    → t.wire.event ≡ transaction_posted ty
    → tx.idempotency_key ≡ ty.idempotency_key
    → i ≡ j
unfolding classify
classify-dedup st disk now jobs {b} i j s t tx ty e at_i is_tx at_j is_ty same =
    let h =
      classify_from-IsDeduped st disk 0 jobs (start_batch st now) e (start-IsDeduped st disk now) in
    some_inj (
      sym (h.leads i s tx at_i is_tx).0
      ∙ ap (λ k. get k b.scratch.idem) same
      ∙ (h.leads j t ty at_j is_ty).0)
