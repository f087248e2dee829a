-- ===== src/Writer/Settle/Answers.antt =====
-- Every job of a batch is answered, once and in order.
use talea.Prelude.{ℕ, ◌+◌, max, ◌≡◌, refl, subst, ap, ◌∙◌, String, some}
use talea.Prelude.{List, [], ◌∷◌, ◌++◌, map, append-nil, append_assoc, length, arith, inl, inr}
use talea.Prelude.Eq.{string_eq}
use talea.Prelude.Seqs.{get_elem?-append_last}
use talea.HashMap.{HashMap, get}
use talea.Result.{bind_option-eq-some, some_inj}
use talea.Types.{
  Transaction, LedgerEvent, DateTime, asset_registered, account_opened, transaction_posted,
}
use talea.Types.{AccountDef, AccountCfg}
use talea.Idem.{CommittedRec}
use talea.State.{BookState}
use talea.State.Validate.{validate}
use talea.Writer.Classify.{
  Job, Staged, Reply, Batch, commit, open_account, register_asset, snapshot,
}
use talea.Writer.Classify.{dup, dup_in_batch, reject, open_exists_ok, staged_reply}
use talea.Writer.Classify.{start_batch, accept, reply_with, with_staged}
use talea.Writer.Classify.{classify_commit, classify_open, classify_job, classify_from, classify}
use talea.Writer.Classify.Cases.{Decided, classify_commit-cases, classify_open-cases}
use talea.Writer.Settle.{Answer, answer, answers, staged_answer}
use talea.Writer.Settle.Dedup.{IsDeduped, classify_job-IsDeduped, start-IsDeduped}
use talea.Writer.Settle.Replies.{answers-append, answers-snoc}

-- The positions of the jobs that ask for an answer from the batch.
abbrev pub asked : ℕ → List (Job × DateTime) → List ℕ
asked idx [] = []
asked idx ((commit tx, _) ∷ jobs) = idx ∷ asked (idx + 1) jobs
asked idx ((open_account def cfg, _) ∷ jobs) = idx ∷ asked (idx + 1) jobs
asked idx ((register_asset def, _) ∷ jobs) = idx ∷ asked (idx + 1) jobs
asked idx ((snapshot, _) ∷ jobs) = asked (idx + 1) jobs

-- The positions of the snapshots.
abbrev pub snapshots : ℕ → List (Job × DateTime) → List ℕ
snapshots idx [] = []
snapshots idx ((commit tx, _) ∷ jobs) = snapshots (idx + 1) jobs
snapshots idx ((open_account def cfg, _) ∷ jobs) = snapshots (idx + 1) jobs
snapshots idx ((register_asset def, _) ∷ jobs) = snapshots (idx + 1) jobs
snapshots idx ((snapshot, _) ∷ jobs) = idx ∷ snapshots (idx + 1) jobs

-- The replies so far have answers, and they go to the jobs at the positions `done`.
pub record Sends (b : Batch) (done snaps : List ℕ) : Type 0 where
  pub sent : List (ℕ × Answer)
  pub goes_through : answers b.staged b.replies ≡ some sent
  pub to_jobs : map (λ (a : ℕ × Answer). a.0) sent ≡ done
  pub to_snapshots : b.snap_job_idxs ≡ snaps

map-snoc :
    (l : List (ℕ × Answer)) (a : ℕ × Answer)
    → map (λ (x : ℕ × Answer). x.0) (l ++ (a ∷ [])) ≡ map (λ (x : ℕ × Answer). x.0) l ++ (a.0 ∷ [])
map-snoc [] a = refl
map-snoc (x ∷ l) a = ap (λ t. x.0 ∷ t) (map-snoc l a)

reply-Sends :
    (r : Reply) (b : Batch) (done snaps : List ℕ) {idx : ℕ} {a : Answer}
    → answer b.staged r ≡ some (idx, a)
    → Sends b done snaps
    → Sends (reply_with r b) (done ++ (idx ∷ [])) snaps
unfolding reply_with
reply-Sends r b done snaps {idx} {a} e h = record {
  sent = h.sent ++ ((idx, a) ∷ []);
  goes_through = answers-snoc b.staged b.replies r h.goes_through e;
  to_jobs = map-snoc h.sent (idx, a) ∙ ap (λ l. l ++ (idx ∷ [])) h.to_jobs;
  to_snapshots = h.to_snapshots;
}

accept-Sends :
    (idx : ℕ) (now : DateTime) (event : LedgerEvent) (b : Batch) (done snaps : List ℕ)
    → Sends b done snaps
    → Sends (accept idx now event b) (done ++ (idx ∷ [])) snaps
unfolding accept answer
accept-Sends idx now event b done snaps h =
    let s : Staged = record {
      job_idx = idx;
      wire = record { seq = b.seq; at = max b.batch_at now; event = event };
      place = (0, 0);
    } in
    record {
      sent = h.sent ++ ((idx, staged_answer s) ∷ []);
      goes_through =
          answers-snoc (b.staged ++ (s ∷ [])) b.replies (staged_reply (length b.staged))
            (answers-append b.staged s b.replies h.goes_through)
            (rw (get_elem?-append_last b.staged s (length b.staged) refl) refl);
      to_jobs = map-snoc h.sent (idx, staged_answer s) ∙ ap (λ l. l ++ (idx ∷ [])) h.to_jobs;
      to_snapshots = h.to_snapshots;
    }

-- The slot that a key leads to holds a transaction, so a duplicate in the batch has an answer.
dup-answer :
    (st : BookState) (disk : HashMap String CommittedRec) (b : Batch) (idx slot : ℕ) (key : String)
    → get key b.scratch.idem ≡ some slot
    → IsDeduped st disk b
    → (a : Answer) × (answer b.staged (dup_in_batch idx slot) ≡ some (idx, a))
unfolding answer
dup-answer st disk b idx slot key e h =
    let (s, tx, at_slot, is_tx, _) = h.slots key slot e in
    (staged_answer s, ground (arith, at_slot, is_tx))

module _ (st : BookState) (disk : HashMap String CommittedRec) where
  Decided-Sends :
      (idx : ℕ) (now : DateTime) (tx : Transaction) (b b' : Batch) (done snaps : List ℕ)
      → Decided idx now tx b (validate st tx b.scratch).0 (validate st tx b.scratch).1 b'
      → Sends b done snaps
      → Sends b' (done ++ (idx ∷ [])) snaps
  unfolding answer
  Decided-Sends idx now tx b b' done snaps (inl (e, _, same)) h = rw same (
      reply-Sends (reject idx e) _ done snaps refl (record {
        sent = h.sent;
        goes_through = h.goes_through;
        to_jobs = h.to_jobs;
        to_snapshots = h.to_snapshots;
      }))
  Decided-Sends idx now tx b b' done snaps (inr (staged, _, _, same)) h = rw same (
      accept-Sends idx now (transaction_posted tx) (with_staged tx staged b) done snaps (record {
        sent = h.sent;
        goes_through = h.goes_through;
        to_jobs = h.to_jobs;
        to_snapshots = h.to_snapshots;
      }))

  commit-Sends :
      (idx : ℕ) (now : DateTime) (tx : Transaction) (b : Batch) (done snaps : List ℕ) {b' : Batch}
      → classify_commit st disk idx now tx b ≡ some b'
      → IsDeduped st disk b
      → Sends b done snaps
      → Sends b' (done ++ (idx ∷ [])) snaps
  unfolding answer
  commit-Sends idx now tx b done snaps {b'} e d h =
      elim (classify_commit-cases idx now tx b st disk e) [
        | inl (r, same, inl (rec, _, is_dup)) ↦
            rw (same, is_dup) (reply-Sends (dup idx rec) b done snaps refl h)
        | inl (r, same, inr (slot, at_slot, is_dup)) ↦
            let (a, f) = dup-answer st disk b idx slot tx.idempotency_key at_slot d in
            rw (same, is_dup) (reply-Sends (dup_in_batch idx slot) b done snaps f h)
        | inr (_, _, decided) ↦ Decided-Sends idx now tx b b' done snaps decided h
      ]

  open-Sends :
      (idx : ℕ) (now : DateTime) (def : AccountDef) (cfg : AccountCfg) (b : Batch)
      (done snaps : List ℕ)
      → Sends b done snaps
      → Sends (classify_open st idx now def cfg b) (done ++ (idx ∷ [])) snaps
  unfolding answer
  open-Sends idx now def cfg b done snaps h = elim (classify_open-cases st idx now def cfg b) [
    | inl (r, same, inl is_ok) ↦
        rw (same, is_ok) (reply-Sends (open_exists_ok idx) b done snaps refl h)
    | inl (r, same, inr (e, is_err)) ↦
        rw (same, is_err) (reply-Sends (reject idx e) b done snaps refl h)
    | inr (_, same) ↦ rw same (accept-Sends idx now (account_opened def cfg) b done snaps h)
  ]

  classify_job-Sends :
      (idx : ℕ) (now : DateTime) (job : Job) (b : Batch) (done snaps : List ℕ) {b' : Batch}
      → classify_job st disk idx now job b ≡ some b'
      → IsDeduped st disk b
      → Sends b done snaps
      → Sends b' (done ++ asked idx ((job, now) ∷ [])) (snaps ++ snapshots idx ((job, now) ∷ []))
  unfolding classify_job
  classify_job-Sends idx now (commit tx) b done snaps e d h =
      rw append-nil (commit-Sends idx now tx b done snaps e d h)
  classify_job-Sends idx now (open_account def cfg) b done snaps e d h = rw append-nil (
      subst (λ (c : Batch). Sends c (done ++ (idx ∷ [])) snaps) (some_inj e)
        (open-Sends idx now def cfg b done snaps h))
  classify_job-Sends idx now (register_asset def) b done snaps e d h = rw append-nil (
      subst (λ (c : Batch). Sends c (done ++ (idx ∷ [])) snaps) (some_inj e)
        (accept-Sends idx now (asset_registered def) b done snaps h))
  classify_job-Sends idx now snapshot b done snaps e d h = rw append-nil (
      subst (λ (c : Batch). Sends c done (snaps ++ (idx ∷ []))) (some_inj e)
        (record {
          sent = h.sent;
          goes_through = h.goes_through;
          to_jobs = h.to_jobs;
          to_snapshots = ap (λ l. l ++ (idx ∷ [])) h.to_snapshots;
        }))

asked-cons :
    (idx : ℕ) (now : DateTime) (job : Job) (jobs : List (Job × DateTime))
    → asked idx ((job, now) ∷ jobs) ≡ asked idx ((job, now) ∷ []) ++ asked (idx + 1) jobs
asked-cons idx now (commit tx) jobs = refl
asked-cons idx now (open_account def cfg) jobs = refl
asked-cons idx now (register_asset def) jobs = refl
asked-cons idx now snapshot jobs = refl

snapshots-cons :
    (idx : ℕ) (now : DateTime) (job : Job) (jobs : List (Job × DateTime))
    → snapshots idx ((job, now) ∷ jobs)
      ≡ snapshots idx ((job, now) ∷ []) ++ snapshots (idx + 1) jobs
snapshots-cons idx now (commit tx) jobs = refl
snapshots-cons idx now (open_account def cfg) jobs = refl
snapshots-cons idx now (register_asset def) jobs = refl
snapshots-cons idx now snapshot jobs = refl

classify_from-Sends :
    (st : BookState) (disk : HashMap String CommittedRec) (idx : ℕ) (jobs : List (Job × DateTime))
    (b : Batch) (done snaps : List ℕ) {b' : Batch}
    → classify_from st disk idx jobs b ≡ some b'
    → IsDeduped st disk b
    → Sends b done snaps
    → Sends b' (done ++ asked idx jobs) (snaps ++ snapshots idx jobs)
unfolding classify_from
classify_from-Sends st disk idx [] b done snaps e d h =
    rw (append-nil, append-nil) (subst (λ (c : Batch). Sends c done snaps) (some_inj e) h)
classify_from-Sends st disk idx ((job, now) ∷ jobs) b done snaps e d h =
    let (b₁, one, rest) = bind_option-eq-some (classify_job st disk idx now job b) _ e in
    rw
      (asked-cons idx now job jobs, snapshots-cons idx now job jobs, ← append_assoc, ← append_assoc)
      (classify_from-Sends st disk (idx + 1) jobs b₁ (done ++ asked idx ((job, now) ∷ []))
        (snaps ++ snapshots idx ((job, now) ∷ [])) rest
        (classify_job-IsDeduped st disk idx now job b one d)
        (classify_job-Sends st disk idx now job b done snaps one d h))

-- The replies of a batch have answers, one for each job that asks, in the order of the jobs.
pub classify-Sends :
    (st : BookState) (disk : HashMap String CommittedRec) (now : DateTime)
    (jobs : List (Job × DateTime)) {b : Batch}
    → classify st disk now jobs ≡ some b
    → Sends b (asked 0 jobs) (snapshots 0 jobs)
unfolding classify start_batch answers
classify-Sends st disk now jobs e =
    classify_from-Sends st disk 0 jobs (start_batch st now) [] [] e (start-IsDeduped st disk now)
      (record { sent = []; goes_through = refl; to_jobs = refl; to_snapshots = refl })
