-- ===== src/Writer/Settle/Applies.antt =====
-- What a batch staged is applied without an overflow: the fatal error of phase 5 does not arise.
use talea.Prelude.{ℕ, max, ◌+◌, ◌≡◌, refl, subst, String, none, some}
use talea.Prelude.{List, [], ◌∷◌, length, arith, inl, inr}
use talea.Prelude.Eq.{string_eq}
use talea.HashMap.{HashMap, get}
use talea.Result.{bind_option-eq-some, some_inj}
use talea.Types.{Transaction, AccountDef, AccountCfg, LedgerEvent, to_key}
use talea.Types.{AssetDef, DateTime, asset_registered, account_opened, transaction_posted}
use talea.Idem.{CommittedRec}
use talea.State.{BookState, Scratch, FramePos}
use talea.State.Validate.{validate, stage, stage_postings, committed_raw}
use talea.State.Validate.Staging.{validate-scratch}
use talea.State.Apply.{apply_account_opened, bump_seq}
use talea.State.Apply.Agreement.{Follows, try_apply_transaction-stage}
use talea.Writer.Classify.{Job, Reply, Batch, commit, open_account, register_asset, snapshot}
use talea.Writer.Classify.{start_batch, accept, reply_with, with_staged}
use talea.Writer.Classify.{classify_job, classify_from, classify}
use talea.Writer.Classify.{reject, with_scratch}
use talea.Writer.Classify.Cases.{Decided, classify_commit-cases, classify_open-cases}
use talea.Writer.Settle.{apply_event, apply_staged, placed}
use talea.Writer.Settle.Overlay.{IsKnown, IsKnown-seed, IsKnown-stage, Follows-seed, Follows-open}
use talea.Writer.Settle.Overlay.{placed-append, apply_staged-append}

-- What the loop keeps, wherever the frames are written: the staged events can be applied to the
-- committed state, and the balances are then those of the overlay.
record Applies (places : ℕ → FramePos) (st : BookState) (b : Batch) : Type 0 where
  result : BookState
  goes_through : apply_staged (placed places 0 b.staged) st ≡ some result
  follows : Follows (committed_raw st.accounts) b.scratch.raw result.accounts
  known : IsKnown st.accounts b.scratch.raw

module _ (places : ℕ → FramePos) (st : BookState) (disk : HashMap String CommittedRec) where
  -- One more event, given what it does to the state.
  Applies-accept :
      (idx : ℕ) (now : DateTime) (event : LedgerEvent) (b : Batch) (before after : BookState)
      → apply_staged (placed places 0 b.staged) st ≡ some before
      → apply_event
          (record { seq = b.seq; at = max b.batch_at now; event = event })
          (places (length b.staged))
          before
        ≡ some after
      → apply_staged (placed places 0 (accept idx now event b).staged) st ≡ some after
  unfolding accept
  Applies-accept idx now event b before after e f =
      let z : length b.staged ≡ 0 + length b.staged = omega arith in
      rw placed-append (rw apply_staged-append (rw e (rw z at f)))

  -- A batch with the same staged events, and an overlay that was seeded at most.
  Applies-validate :
      (tx : Transaction) (b : Batch)
      → Applies places st b
      → Applies places st (with_scratch (validate st tx b.scratch).1 b)
  Applies-validate tx b h = elim (validate-scratch st tx b.scratch) [
    | inl same ↦ record {
      result = h.result;
      goes_through = h.goes_through;
      follows = rw same h.follows;
      known = rw same h.known;
    }
    | inr (c, same) ↦ record {
      result = h.result;
      goes_through = h.goes_through;
      follows =
          rw same (Follows-seed st.accounts h.result.accounts tx.postings b.scratch.raw h.follows);
      known = rw same (IsKnown-seed st.accounts tx.postings b.scratch.raw c h.known);
    }
  ]

  reply-Applies : (r : Reply) (b : Batch) → Applies places st b → Applies places st (reply_with r b)
  unfolding reply_with
  reply-Applies r b h = record {
    result = h.result;
    goes_through = h.goes_through;
    follows = h.follows;
    known = h.known;
  }

  stage-IsKnown :
      (tx : Transaction) (scratch staged : Scratch)
      → stage tx scratch ≡ some staged
      → IsKnown st.accounts scratch.raw
      → IsKnown st.accounts staged.raw
  unfolding stage
  stage-IsKnown tx scratch staged e h =
      let (raw, er, e') = bind_option-eq-some (stage_postings tx.postings scratch.raw) _ e in
      subst (λ (c : Scratch). IsKnown st.accounts c.raw) (some_inj e')
        (IsKnown-stage st.accounts tx.postings scratch.raw er h)

  -- A transaction that was staged.
  Applies-commit :
      (idx : ℕ) (now : DateTime) (tx : Transaction) (b : Batch) (staged : Scratch)
      → stage tx (validate st tx b.scratch).1 ≡ some staged
      → Applies places st b
      → Applies places st (accept idx now (transaction_posted tx) (with_staged tx staged b))
  unfolding accept apply_event
  Applies-commit idx now tx b staged e h₀ =
      let h = Applies-validate tx b h₀ in
      let (after, went, follows) =
        try_apply_transaction-stage (committed_raw st.accounts) tx b.seq (max b.batch_at now)
          (places (length b.staged)) h.result (validate st tx b.scratch).1 e h.follows in
      record {
        result = after;
        goes_through =
            Applies-accept idx now (transaction_posted tx) b h.result after h.goes_through went;
        follows = follows;
        known = stage-IsKnown tx (validate st tx b.scratch).1 staged e h.known;
      }

  Applies-Decided :
      (idx : ℕ) (now : DateTime) (tx : Transaction) (b b' : Batch)
      → Decided idx now tx b (validate st tx b.scratch).0 (validate st tx b.scratch).1 b'
      → Applies places st b
      → Applies places st b'
  Applies-Decided idx now tx b b' (inl (e, _, same)) h =
      rw same (reply-Applies (reject idx e) _ (Applies-validate tx b h))
  Applies-Decided idx now tx b b' (inr (staged, _, e, same)) h =
      rw same (Applies-commit idx now tx b staged e h)

  -- An account that is opened, and an asset that is registered.
  Applies-open :
      (idx : ℕ) (now : DateTime) (def : AccountDef) (cfg : AccountCfg) (b : Batch)
      → get (to_key def.id) st.accounts ≡ none
      → Applies places st b
      → Applies places st (accept idx now (account_opened def cfg) b)
  unfolding accept apply_event apply_account_opened
  Applies-open idx now def cfg b absent h =
      let after = apply_account_opened def cfg b.seq (max b.batch_at now) h.result in
      record {
        result = after;
        goes_through =
            Applies-accept idx now (account_opened def cfg) b h.result after h.goes_through refl;
        follows =
            Follows-open st.accounts h.result.accounts b.scratch.raw (to_key def.id) _ absent
              h.known refl h.follows;
        known = h.known;
      }

  Applies-asset :
      (idx : ℕ) (now : DateTime) (def : AssetDef) (b : Batch)
      → Applies places st b
      → Applies places st (accept idx now (asset_registered def) b)
  unfolding accept apply_event bump_seq
  Applies-asset idx now def b h =
      let after = bump_seq b.seq (max b.batch_at now) h.result in
      record {
        result = after;
        goes_through =
            Applies-accept idx now (asset_registered def) b h.result after h.goes_through refl;
        follows = h.follows;
        known = h.known;
      }

  classify_job-Applies :
      (idx : ℕ) (now : DateTime) (job : Job) (b : Batch) {b' : Batch}
      → classify_job st disk idx now job b ≡ some b'
      → Applies places st b
      → Applies places st b'
  unfolding classify_job
  classify_job-Applies idx now (commit tx) b {b'} e h =
      elim (classify_commit-cases idx now tx b st disk e) [
        | inl (r, same, _) ↦ rw same (reply-Applies r b h)
        | inr (_, _, decided) ↦ Applies-Decided idx now tx b b' decided h
      ]
  classify_job-Applies idx now (open_account def cfg) b e h =
      subst (Applies places st) (some_inj e) (elim (classify_open-cases st idx now def cfg b) [
        | inl (r, same, _) ↦ rw same (reply-Applies r b h)
        | inr (absent, same) ↦ rw same (Applies-open idx now def cfg b absent h)
      ])
  classify_job-Applies idx now (register_asset def) b e h =
      subst (Applies places st) (some_inj e) (Applies-asset idx now def b h)
  classify_job-Applies idx now snapshot b e h = subst (Applies places st) (some_inj e) (record {
    result = h.result;
    goes_through = h.goes_through;
    follows = h.follows;
    known = h.known;
  })

  classify_from-Applies :
      (idx : ℕ) (jobs : List (Job × DateTime)) (b : Batch) {b' : Batch}
      → classify_from st disk idx jobs b ≡ some b'
      → Applies places st b
      → Applies places st b'
  unfolding classify_from
  classify_from-Applies idx [] b e h = subst (Applies places st) (some_inj e) h
  classify_from-Applies idx ((job, now) ∷ jobs) b e h =
      let (b₁, one, rest) = bind_option-eq-some (classify_job st disk idx now job b) _ e in
      classify_from-Applies (idx + 1) jobs b₁ rest (classify_job-Applies idx now job b one h)

-- Wherever the frames of a batch are written, all its staged events are applied to the committed
-- state in their order, without an overflow, and each balance is then the one of the overlay, or the
-- committed one where the overlay has no entry. The overlay has entries of committed accounts only.
pub classify-Applies :
    (places : ℕ → FramePos) (st : BookState) (disk : HashMap String CommittedRec) (now : DateTime)
    (jobs : List (Job × DateTime)) {b : Batch}
    → classify st disk now jobs ≡ some b
    → (st' : BookState) × (apply_staged (placed places 0 b.staged) st ≡ some st')
      × Follows (committed_raw st.accounts) b.scratch.raw st'.accounts
      × IsKnown st.accounts b.scratch.raw
unfolding classify start_batch placed apply_staged committed_raw get
classify-Applies places st disk now jobs e =
    let h = classify_from-Applies places st disk 0 jobs (start_batch st now) e (record {
      result = st;
      goes_through = refl;
      follows = λ k a f. ground (arith, f);
      known = λ k _. refl;
    }) in
    (h.result, h.goes_through, h.follows, h.known)
