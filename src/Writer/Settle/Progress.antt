-- ===== src/Writer/Settle/Progress.antt =====
-- Every batch is classified to its end: the fatal error of phase 2c does not arise.
use talea.Prelude.{ℕ, ◌+◌, ◌≡◌, refl, String, some}
use talea.Prelude.{List, [], ◌∷◌, ◌++◌, arith, Option-cases, inl, inr}
use talea.Prelude.Eq.{string_eq}
use talea.HashMap.{HashMap, get}
use talea.Result.{Result-cases}
use talea.Types.{Transaction}
use talea.Types.{DateTime, asset_registered, transaction_posted}
use talea.Idem.{CommittedRec}
use talea.State.{BookState}
use talea.State.Validate.{validate}
use talea.State.Validate.Staging.{stage-validate}
use talea.Writer.Classify.{Job, Batch, commit, open_account, register_asset, snapshot}
use talea.Writer.Classify.{start_batch, accept, reply_with, with_staged, on_verdict, classify_new}
use talea.Writer.Classify.{classify_commit, classify_open, classify_job, classify_from, classify}
use talea.Writer.Classify.{dup, dup_in_batch, reject, with_scratch}
use talea.Writer.Classify.Cases.{prior}

-- `on_verdict` ends, since staging goes through after a positive verdict.
classify_new_total :
    (st : BookState) (idx : ℕ) (now : DateTime) (tx : Transaction) (b : Batch)
    → (b' : Batch) × (classify_new st idx now tx b ≡ some b')
unfolding classify_new on_verdict
classify_new_total st idx now tx b = elim (Result-cases (validate st tx b.scratch).0) [
  | inl (_, valid) ↦
      let (scratch', went) = stage-validate st tx b.scratch valid in
      (accept idx now (transaction_posted tx) (with_staged tx scratch' b), rw (valid, went) refl)
  | inr (e, invalid) ↦
      (reply_with (reject idx e) (with_scratch (validate st tx b.scratch).1 b), rw invalid refl)
]

classify_commit_total :
    (st : BookState) (disk : HashMap String CommittedRec) (idx : ℕ) (now : DateTime)
    (tx : Transaction) (b : Batch)
    → (b' : Batch) × (classify_commit st disk idx now tx b ≡ some b')
unfolding classify_commit
classify_commit_total st disk idx now tx b = elim (Option-cases (prior idx now tx b st disk)) [
  | inr (rec, e) ↦ (reply_with (dup idx rec) b, ground (arith, e))
  | inl new ↦ elim (Option-cases (get tx.idempotency_key b.scratch.idem)) [
    | inr (slot, e) ↦ (reply_with (dup_in_batch idx slot) b, ground (arith, new, e))
    | inl fresh ↦
        let (b', e) = classify_new_total st idx now tx b in (b', ground (arith, new, fresh, e))
  ]
]

classify_job_total :
    (st : BookState) (disk : HashMap String CommittedRec) (idx : ℕ) (now : DateTime) (job : Job)
    (b : Batch)
    → (b' : Batch) × (classify_job st disk idx now job b ≡ some b')
unfolding classify_job
classify_job_total st disk idx now (commit tx) b = classify_commit_total st disk idx now tx b
classify_job_total st disk idx now (open_account def cfg) b =
    (classify_open st idx now def cfg b, refl)
classify_job_total st disk idx now (register_asset def) b =
    (accept idx now (asset_registered def) b, refl)
classify_job_total st disk idx now snapshot b =
    (record b { snap_job_idxs = b.snap_job_idxs ++ (idx ∷ []) }, refl)

classify_from_total :
    (st : BookState) (disk : HashMap String CommittedRec) (idx : ℕ) (jobs : List (Job × DateTime))
    (b : Batch)
    → (b' : Batch) × (classify_from st disk idx jobs b ≡ some b')
unfolding classify_from
classify_from_total st disk idx [] b = (b, refl)
classify_from_total st disk idx ((job, now) ∷ jobs) b =
    let (b₁, one) = classify_job_total st disk idx now job b in
    rw one (classify_from_total st disk (idx + 1) jobs b₁)

-- Every batch is classified to its end, whatever the jobs and the state: the fatal error that would
-- kill the writer does not arise.
pub classify_total :
    (st : BookState) (disk : HashMap String CommittedRec) (now : DateTime)
    (jobs : List (Job × DateTime))
    → (b : Batch) × (classify st disk now jobs ≡ some b)
unfolding classify
classify_total st disk now jobs = classify_from_total st disk 0 jobs (start_batch st now)
