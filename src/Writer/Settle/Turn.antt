-- ===== src/Writer/Settle/Turn.antt =====
-- One turn of the writer, as a whole.
use talea.Prelude.{
  ℕ, zero, suc, ◌+◌, ◌≡◌, ◌≢◌, refl, subst, sym, ap, ◌∙◌, String, Option, none, some,
}
use talea.Prelude.{List, [], ◌∷◌, map, length, get_elem?, arith, Option-cases, inl, inr}
use talea.HashMap.{HashMap}
use talea.Result.{bind_option, bind_option-eq-some, some_inj}
use talea.Types.{DateTime, Seq, LedgerEvent, asset_registered, account_opened, transaction_posted}
use talea.Idem.{CommittedRec}
use talea.State.{BookState, FramePos}
use talea.State.Apply.{
  try_apply_transaction, apply_postings, record_commit, apply_account_opened, bump_seq,
}
use talea.Writer.Classify.{Job, Staged, Reply, Batch, classify}
use talea.Writer.Classify.{dup, dup_in_batch, reject, open_exists_ok, staged_reply}
use talea.Writer.Classify.Sequence.{Numbered, classify-IsSequenced}
use talea.Writer.Settle.{Answer, served, answer, answers, placed, apply_event, apply_staged}
use talea.Writer.Settle.{settle, frame_positions, run_batch}
use talea.Writer.Settle.Progress.{classify_total}
use talea.Writer.Settle.Applies.{classify-Applies}
use talea.Writer.Settle.Answers.{asked, snapshots, classify-Sends}

get_elem?-placed :
    (places : ℕ → FramePos) (i : ℕ) (xs : List Staged) (n : ℕ)
    → get_elem? (placed places i xs) n
      ≡ bind_option (get_elem? xs n) (λ s. some (record s { place = places (i + n) }))
unfolding placed
get_elem?-placed places i [] n = refl
get_elem?-placed places i (x ∷ xs) zero =
    ap (λ n. some (record x { place = places n })) (omega arith)
get_elem?-placed places i (x ∷ xs) (suc n) =
    get_elem?-placed places (i + 1) xs n
    ∙ ap (λ m. bind_option (get_elem? xs n) (λ s. some (record s { place = places m })))
        (omega arith)

-- The answers do not depend on where the frames are.
answer-placed :
    (places : ℕ → FramePos) (staged : List Staged) (r : Reply)
    → answer (placed places 0 staged) r ≡ answer staged r
unfolding answer
answer-placed places staged (dup idx rec) = refl
answer-placed places staged (reject idx e) = refl
answer-placed places staged (open_exists_ok idx) = refl
answer-placed places staged (dup_in_batch idx slot) = elim (Option-cases (get_elem? staged slot)) [
  | inl e ↦ rw (get_elem?-placed places 0 staged slot, e) refl
  | inr (s, e) ↦ rw (get_elem?-placed places 0 staged slot, e) refl
]
answer-placed places staged (staged_reply slot) = elim (Option-cases (get_elem? staged slot)) [
  | inl e ↦ rw (get_elem?-placed places 0 staged slot, e) refl
  | inr (s, e) ↦ rw (get_elem?-placed places 0 staged slot, e) refl
]

answers-placed :
    (places : ℕ → FramePos) (staged : List Staged) (rs : List Reply)
    → answers (placed places 0 staged) rs ≡ answers staged rs
unfolding answers
answers-placed places staged [] = refl
answers-placed places staged (r ∷ rs) =
    rw (answer-placed places staged r, answers-placed places staged rs) refl

apply_event-next_seq :
    (event : LedgerEvent) (seq : Seq) (at : DateTime) (place : FramePos) (st : BookState)
    {st' : BookState}
    → apply_event (record { seq = seq; at = at; event = event }) place st ≡ some st'
    → st'.next_seq ≡ seq + 1
unfolding apply_event try_apply_transaction record_commit apply_account_opened bump_seq
apply_event-next_seq (transaction_posted tx) seq at place st e =
    let (st₁, _, f) = bind_option-eq-some (apply_postings tx.id seq at tx.postings st) _ e in
    ap (λ (c : BookState). c.next_seq) (sym (some_inj f))
apply_event-next_seq (account_opened def cfg) seq at place st e =
    ap (λ (c : BookState). c.next_seq) (sym (some_inj e))
apply_event-next_seq (asset_registered def) seq at place st e =
    ap (λ (c : BookState). c.next_seq) (sym (some_inj e))

apply_staged-next_seq :
    (places : ℕ → FramePos) (i : ℕ) (xs : List Staged) (st : BookState) {st' : BookState}
    → Numbered st.next_seq xs
    → apply_staged (placed places i xs) st ≡ some st'
    → st'.next_seq ≡ st.next_seq + length xs
unfolding apply_staged placed
apply_staged-next_seq places i [] st n e =
    ap (λ (c : BookState). c.next_seq) (sym (some_inj e)) ∙ omega arith
apply_staged-next_seq places i (x ∷ xs) st {st'} n e =
    let (st₁, one, rest) = bind_option-eq-some (apply_event x.wire (places i) st) _ e in
    let step : st₁.next_seq ≡ st.next_seq + 1 =
      apply_event-next_seq x.wire.event x.wire.seq x.wire.at (places i) st one
      ∙ ap (λ k. k + 1) n.0 in
    let h =
      apply_staged-next_seq places (i + 1) xs st₁ (subst (λ k. Numbered k xs) (sym step) n.1)
        rest in
    omega (arith, h, step)

frame_positions-some :
    (write_phase : List Staged → Option (ℕ → FramePos)) (staged : List Staged)
    → ((xs : List Staged) → write_phase xs ≢ none)
    → (places : ℕ → FramePos) × (frame_positions write_phase staged ≡ some places)
unfolding frame_positions
frame_positions-some write_phase [] writes = (_, refl)
frame_positions-some write_phase (s ∷ rest) writes = elim (Option-cases (write_phase (s ∷ rest))) [
  | inl e ↦ absurd (writes (s ∷ rest) e)
  | inr found ↦ found
]

-- If the write phase fails for no events, then a turn serves its batch, whatever the state and the jobs:
-- the writer is not killed, each job that asks is answered exactly once, in the order of the jobs, the
-- snapshots are passed on, and the next sequence number has moved by the number of staged events.
pub run_batch_total :
    (write_phase : List Staged → Option (ℕ → FramePos)) (st : BookState)
    (disk : HashMap String CommittedRec) (now : DateTime) (jobs : List (Job × DateTime))
    → ((staged : List Staged) → write_phase staged ≢ none)
    → (b : Batch) × (st' : BookState) × (sent : List (ℕ × Answer)) × (classify st disk now jobs
        ≡ some b)
      × (run_batch write_phase st disk now jobs ≡ served st' sent (snapshots 0 jobs))
      × (map (λ (a : ℕ × Answer). a.0) sent ≡ asked 0 jobs)
      × (st'.next_seq ≡ st.next_seq + length b.staged)
unfolding run_batch settle
run_batch_total write_phase st disk now jobs writes =
    let (b, e) = classify_total st disk now jobs in
    let (places, at) = frame_positions-some write_phase b.staged writes in
    let (st', applied, _, _) = classify-Applies places st disk now jobs e in
    let h = classify-Sends st disk now jobs e in
    (
      b,
      st',
      h.sent,
      e,
      rw (e, at, applied, answers-placed places b.staged b.replies, h.goes_through, h.to_snapshots)
          refl,
      h.to_jobs,
      apply_staged-next_seq places 0 b.staged st (classify-IsSequenced st disk now jobs e).numbered
          applied,
    )
