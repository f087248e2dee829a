-- ===== src/Router/Drain.antt =====
-- The committer: every job that is queued is in one batch, in its order, and gets its reply.
use talea.Prelude.{ℕ, zero, suc, ◌≤◌, ◌≡◌, refl, sym, ◌∙◌, ap}
use talea.Prelude.{some, List, [], ◌∷◌, ◌++◌, append_assoc, length}
use talea.Prelude.Lists.{length-map}
use talea.Prelude.{length-append, All, leb, map, max, Bool-cases, inl, inr, arith}
use talea.Result.{Result}
use talea.Types.{Transaction, Committed, StoreError}
use talea.State.PostingIndex.{concat}
use mathlib.Core.List.{map-append}
use talea.Router.{Job, drain_batch, batches, replies, commit_batch_and_reply, serve}

-- What a drained batch has and leaves.
record IsDrained (batch_max : ℕ) (batch queued : List Job) (drained : List Job × List Job)
    : Type 0 where
  whole : drained.0 ++ drained.1 ≡ batch ++ queued
  size : length drained.0 ≤ max (length batch) batch_max
  less : length drained.1 ≤ length queued

drain_batch-IsDrained :
    (batch_max : ℕ) (batch queued : List Job)
    → IsDrained batch_max batch queued (drain_batch batch_max batch queued)
unfolding drain_batch
drain_batch-IsDrained batch_max batch [] = record {
  whole = refl;
  size = omega arith;
  less = omega arith;
}
drain_batch-IsDrained batch_max batch (job ∷ queued) =
    elim (Bool-cases (leb batch_max (length batch))) [
      | inl full ↦
          rw (full, drain_batch) (record { whole = refl; size = omega arith; less = omega arith })
      | inr short ↦
          let d = drain_batch-IsDrained batch_max (batch ++ (job ∷ [])) queued in
          let grown = length-append batch (job ∷ []) in
          rw (short, drain_batch)
            (record {
              whole = d.whole ∙ append_assoc batch (job ∷ []) queued;
              size = ground (arith, short, grown, d.size);
              less = omega (arith, d.less);
            })
    ]

-- For a queue of at most `fuel` jobs, the batches are the queue, cut.
batches_total :
    (batch_max fuel : ℕ) (queued : List Job)
    → length queued ≤ fuel
    → (bs : List (List Job)) × (batches batch_max fuel queued ≡ some bs)
      × (concat bs ≡ queued)
      × All (λ b. length b ≤ max 1 batch_max) bs
unfolding batches
batches_total batch_max fuel [] h = ([], refl, refl, tt)
batches_total batch_max zero (job ∷ queued) h = absurd (omega arith)
batches_total batch_max (suc fuel) (job ∷ queued) h =
    let drained = drain_batch batch_max (job ∷ []) queued in
    let d = drain_batch-IsDrained batch_max (job ∷ []) queued in
    let (rest, e, whole, sizes) = batches_total batch_max fuel drained.1 (omega (arith, d.less)) in
    (
      drained.0 ∷ rest,
      rw (e, batches) refl,
      ap (λ q. drained.0 ++ q) whole ∙ d.whole,
      (d.size, sizes),
    )

-- As many answers as jobs answer every job.
replies-slots :
    (batch : List Job) (results : List (Result StoreError Committed))
    → length results ≡ length batch
    → map (λ (r : ℕ × Result StoreError Committed). r.0) (replies batch results)
      ≡ map (λ (j : Job). j.reply) batch
unfolding replies
replies-slots [] results h = refl
replies-slots (job ∷ batch) [] h = absurd (omega (arith, h))
replies-slots (job ∷ batch) (result ∷ results) h =
    ap (λ ss. job.reply ∷ ss) (replies-slots batch results (omega (arith, h)))

module _ (commit_batch : List Transaction → List (Result StoreError Committed)) where
  serve-slots :
      (bs : List (List Job))
      → ((txs : List Transaction) → length (commit_batch txs) ≡ length txs)
      → map (λ (r : ℕ × Result StoreError Committed). r.0) (serve commit_batch bs)
        ≡ map (λ (j : Job). j.reply) (concat bs)
  unfolding serve commit_batch_and_reply
  serve-slots [] one_each = refl
  serve-slots (batch ∷ bs) one_each =
      let txs = map (λ (j : Job). j.transaction) batch in
      let len = one_each txs ∙ length-map batch (λ (j : Job). j.transaction) in
      let first = replies-slots batch (commit_batch txs) len in
      map-append (λ (r : ℕ × Result StoreError Committed). r.0) (replies batch (commit_batch txs))
        (serve commit_batch bs)
      ∙ ap (λ ss. ss ++ map (λ (r : ℕ × Result StoreError Committed). r.0) (serve commit_batch bs))
          first
      ∙ ap (λ ss. map (λ (j : Job). j.reply) batch ++ ss) (serve-slots bs one_each)
      ∙ sym (map-append (λ (j : Job). j.reply) batch (concat bs))

  -- Let the store give one answer for each transaction of a batch, and let the fuel be at least the number
  -- of the jobs that are queued. Then the committer cuts the queue into batches, in the order of the
  -- queue, each of at most `batch_max` jobs, or of one if that is 0; and over all of the batches the reply
  -- slots of the jobs are answered in the order of the queue, each as often as it stands there.
  pub serve_total :
      (batch_max fuel : ℕ) (queued : List Job)
      → ((txs : List Transaction) → length (commit_batch txs) ≡ length txs)
      → length queued ≤ fuel
      → (bs : List (List Job)) × (batches batch_max fuel queued ≡ some bs)
        × (concat bs ≡ queued)
        × All (λ b. length b ≤ max 1 batch_max) bs
        × (map (λ (r : ℕ × Result StoreError Committed). r.0) (serve commit_batch bs)
            ≡ map (λ (j : Job). j.reply) queued)
  serve_total batch_max fuel queued one_each h =
      let (bs, e, whole, sizes) = batches_total batch_max fuel queued h in
      (bs, e, whole, sizes, serve-slots bs one_each ∙ ap (map (λ (j : Job). j.reply)) whole)
