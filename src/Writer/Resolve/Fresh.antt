-- ===== src/Writer/Resolve/Fresh.antt =====
-- Idempotency over all earlier batches.
use talea.Prelude.{ℕ, ◌+◌, ◌≡◌, subst, sym, ap, ◌∙◌, String, none, some}
use talea.Prelude.{List, [], ◌∷◌, get_elem?, inl, inr}
use talea.Prelude.Eq.{string_eq}
use talea.Prelude.Seqs.{get_elem?-append_cases}
use talea.HashMap.{HashMap}
use talea.Result.{bind_option-eq-some, some_inj}
use talea.Types.{DateTime, Transaction, LedgerEvent}
use talea.Types.{transaction_posted, account_opened, asset_registered}
use talea.Idem.{CommittedRec}
use talea.State.{BookState}
use talea.Writer.Classify.{
  Job, Staged, Batch, commit, open_account, register_asset, snapshot, accept, reply_with,
}
use talea.Writer.Classify.{classify_job, classify_from, classify, start_batch, with_staged}
use talea.Writer.Classify.Cases.{record_of, classify_commit-cases, classify_open-cases}
use talea.Writer.Settle.Dedup.{classify-fresh}
use talea.Writer.Resolve.{Runs, IsSound, found, bloom_positive, resolve}
use talea.Writer.Resolve.Lookup.{Keys, Keys-map, Covered, Covered-bloom_positive, record_of-resolve}

-- The transactions that are staged with that property.
abbrev StagedKeys : (String → Type 0) → Batch → Type 0
StagedKeys P b =
    (i : ℕ) (s : Staged) (tx : Transaction)
    → get_elem? b.staged i ≡ some s
    → s.wire.event ≡ transaction_posted tx
    → P tx.idempotency_key

posted_inj : {tx t : Transaction} → transaction_posted tx ≡ transaction_posted t → tx ≡ t
posted_inj h = cc

accept-StagedKeys :
    (P : String → Type 0) (idx : ℕ) (now : DateTime) (event : LedgerEvent) (b : Batch)
    → ((tx : Transaction) → event ≡ transaction_posted tx → P tx.idempotency_key)
    → StagedKeys P b
    → StagedKeys P (accept idx now event b)
unfolding accept
accept-StagedKeys P idx now event b new h i s tx e f =
    elim (get_elem?-append_cases b.staged _ i e) [
      | inl old ↦ h i s tx old f
      | inr (_, last) ↦ new tx (ap (λ (t : Staged). t.wire.event) last ∙ f)
    ]

module _ (P : String → Type 0) (st : BookState) (disk : HashMap String CommittedRec) where
  classify_job-StagedKeys :
      (idx : ℕ) (now : DateTime) (job : Job) (b : Batch) {b' : Batch}
      → classify_job st disk idx now job b ≡ some b'
      → Keys P ((job, now) ∷ [])
      → StagedKeys P b
      → StagedKeys P b'
  unfolding classify_job reply_with
  classify_job-StagedKeys idx now (commit tx) b e k h =
      elim (classify_commit-cases idx now tx b st disk e) [
        | inl (r, same, _) ↦ rw same h
        | inr (_, _, inl (_, _, same)) ↦ rw same h
        | inr (_, _, inr (staged, _, _, same)) ↦ rw same (
            accept-StagedKeys P idx now (transaction_posted tx) (with_staged tx staged b)
              (λ t f. subst (λ (x : Transaction). P x.idempotency_key) (posted_inj f) k.0) h)
      ]
  classify_job-StagedKeys idx now (open_account def cfg) b e k h =
      subst (StagedKeys P) (some_inj e) (elim (classify_open-cases st idx now def cfg b) [
        | inl (r, same, _) ↦ rw same h
        | inr (_, same) ↦
            rw same (accept-StagedKeys P idx now (account_opened def cfg) b (λ t. cc) h)
      ])
  classify_job-StagedKeys idx now (register_asset def) b e k h =
      subst (StagedKeys P) (some_inj e)
        (accept-StagedKeys P idx now (asset_registered def) b (λ t. cc) h)
  classify_job-StagedKeys idx now snapshot b e k h = subst (StagedKeys P) (some_inj e) h

Keys-cons :
    (P : String → Type 0) (job : Job) (now : DateTime) (jobs : List (Job × DateTime))
    → Keys P ((job, now) ∷ jobs)
    → Keys P ((job, now) ∷ []) × Keys P jobs
Keys-cons P (commit tx) now jobs h = ((h.0, tt), h.1)
Keys-cons P (open_account def cfg) now jobs h = (tt, h)
Keys-cons P (register_asset def) now jobs h = (tt, h)
Keys-cons P snapshot now jobs h = (tt, h)

classify_from-StagedKeys :
    (P : String → Type 0) (st : BookState) (disk : HashMap String CommittedRec) (idx : ℕ)
    (jobs : List (Job × DateTime)) (b : Batch) {b' : Batch}
    → classify_from st disk idx jobs b ≡ some b'
    → Keys P jobs
    → StagedKeys P b
    → StagedKeys P b'
unfolding classify_from
classify_from-StagedKeys P st disk idx [] b e k h = subst (StagedKeys P) (some_inj e) h
classify_from-StagedKeys P st disk idx ((job, now) ∷ jobs) b e k h =
    let (b₁, one, rest) = bind_option-eq-some (classify_job st disk idx now job b) _ e in
    let (here, later) = Keys-cons P job now jobs k in
    classify_from-StagedKeys P st disk (idx + 1) jobs b₁ rest later
      (classify_job-StagedKeys P st disk idx now job b one here h)

-- Idempotency over all earlier batches: if the Bloom filter has no false negative, a transaction that a
-- batch stages, after the keys of the batch were resolved, has a key that neither the memory nor a
-- spilled run knows.
pub classify-new_key :
    (runs : Runs) (st : BookState) (now : DateTime) (jobs : List (Job × DateTime)) {b : Batch}
    (i : ℕ) (s : Staged) (tx : Transaction)
    → IsSound runs
    → classify st (resolve runs st (bloom_positive runs st jobs) []) now jobs ≡ some b
    → get_elem? b.staged i ≡ some s
    → s.wire.event ≡ transaction_posted tx
    → found runs st tx.idempotency_key ≡ none
unfolding classify start_batch
classify-new_key runs st now jobs i s tx sound e at_i is_tx =
    let keys = bloom_positive runs st jobs in
    let disk = resolve runs st keys [] in
    let P : String → Type 0 = λ k. record_of k st disk ≡ found runs st k in
    let resolved =
      Keys-map runs st (Covered runs st keys) P jobs (record_of-resolve runs st keys)
        (Covered-bloom_positive runs st keys jobs sound (λ k there. there)) in
    let staged_keys =
      classify_from-StagedKeys P st disk 0 jobs (start_batch st now) e resolved
        (λ j t ty f g. cc) in
    sym (staged_keys i s tx at_i is_tx) ∙ classify-fresh st disk now jobs i s tx e at_i is_tx
