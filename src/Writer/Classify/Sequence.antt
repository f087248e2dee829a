-- ===== src/Writer/Classify/Sequence.antt =====
-- The staged events of a batch: their sequence numbers and times.
use talea.Prelude.{ℕ, ◌+◌, ◌≤◌, ◌≡◌, subst, String, some, List, [], ◌∷◌}
use talea.Prelude.{◌++◌, length, length-append, arith, inl, inr}
use talea.Prelude.Eq.{string_eq}
use talea.HashMap.{HashMap}
use talea.Result.{Result, bind_option-eq-some, some_inj, unwrap_or}
use talea.Types.{
  Seq, DateTime, LedgerEvent, Transaction, StoreError, asset_registered, account_opened,
  transaction_posted,
}
use talea.Idem.{CommittedRec}
use talea.State.{BookState, Scratch}
use talea.Writer.Classify.{Job, Staged, Batch, commit, open_account, register_asset, snapshot}
use talea.Writer.Classify.{start_batch, accept, reply_with}
use talea.Writer.Classify.Cases.{Decided, classify_commit-cases, classify_open-cases}
use talea.Writer.Classify.{Reply, with_staged, classify_job, classify_from, classify}

-- The sequence numbers count up from `first`.
abbrev pub Numbered : Seq → List Staged → Type 0
Numbered first [] = Unit
Numbered first (s ∷ rest) = (s.wire.seq ≡ first) × Numbered (first + 1) rest

-- The times go from `lo` to `hi` without going back.
abbrev pub Rises : DateTime → List Staged → DateTime → Type 0
Rises lo [] hi = lo ≤ hi
Rises lo (s ∷ rest) hi = (lo ≤ s.wire.at) × Rises s.wire.at rest hi

Numbered-append :
    (first : Seq) (xs : List Staged) (s : Staged)
    → Numbered first xs
    → s.wire.seq ≡ first + length xs
    → Numbered first (xs ++ (s ∷ []))
Numbered-append first [] s h e = (omega arith, tt)
Numbered-append first (x ∷ xs) s h e = (h.0, Numbered-append (first + 1) xs s h.1 (omega arith))

Rises-append :
    (lo hi : DateTime) (xs : List Staged) (s : Staged)
    → Rises lo xs hi
    → hi ≤ s.wire.at
    → Rises lo (xs ++ (s ∷ [])) s.wire.at
Rises-append lo hi [] s h e = (omega arith, omega arith)
Rises-append lo hi (x ∷ xs) s h e = (h.0, Rises-append x.wire.at hi xs s h.1 e)

-- What the loop keeps.
pub record IsSequenced (first : Seq) (floor : DateTime) (b : Batch) : Type 0 where
  pub numbered : Numbered first b.staged
  pub rises : Rises floor b.staged b.batch_at
  pub next : b.seq ≡ first + length b.staged

IsSequenced-accept :
    (first : Seq) (floor : DateTime) (idx : ℕ) (now : DateTime) (event : LedgerEvent) (b : Batch)
    → IsSequenced first floor b
    → IsSequenced first floor (accept idx now event b)
unfolding accept
IsSequenced-accept first floor idx now event b h = record {
  numbered = Numbered-append first b.staged _ h.numbered h.next;
  rises = Rises-append floor b.batch_at b.staged _ h.rises (omega arith);
  next = omega (arith, h.next, length-append b.staged (_ ∷ []));
}

module _ (first : Seq) (floor : DateTime) (st : BookState)
    (disk : HashMap String CommittedRec) where
  Decided-IsSequenced :
      (idx : ℕ) (now : DateTime) (tx : Transaction) (b : Batch)
      (verdict : Result StoreError (Unit {0})) (scratch : Scratch) (b' : Batch)
      → Decided idx now tx b verdict scratch b'
      → IsSequenced first floor b
      → IsSequenced first floor b'
  unfolding reply_with
  Decided-IsSequenced idx now tx b verdict scratch b' (inl (e, _, same)) h =
      rw same (record { numbered = h.numbered; rises = h.rises; next = h.next })
  Decided-IsSequenced idx now tx b verdict scratch b' (inr (scratch', _, _, same)) h = rw same (
      IsSequenced-accept first floor idx now (transaction_posted tx) (with_staged tx scratch' b)
        (record { numbered = h.numbered; rises = h.rises; next = h.next }))

  reply-IsSequenced :
      (r : Reply) (b : Batch) → IsSequenced first floor b → IsSequenced first floor (reply_with r b)
  unfolding reply_with
  reply-IsSequenced r b h = record { numbered = h.numbered; rises = h.rises; next = h.next }

  classify_job-IsSequenced :
      (idx : ℕ) (now : DateTime) (job : Job) (b : Batch) {b' : Batch}
      → classify_job st disk idx now job b ≡ some b'
      → IsSequenced first floor b
      → IsSequenced first floor b'
  unfolding classify_job
  classify_job-IsSequenced idx now (commit tx) b {b'} e h =
      elim (classify_commit-cases idx now tx b st disk e) [
        | inl (r, same, _) ↦ rw same (reply-IsSequenced r b h)
        | inr (_, _, decided) ↦ Decided-IsSequenced idx now tx b _ _ b' decided h
      ]
  classify_job-IsSequenced idx now (open_account def cfg) b e h =
      subst (IsSequenced first floor) (some_inj e)
        (elim (classify_open-cases st idx now def cfg b) [
          | inl (r, same, _) ↦ rw same (reply-IsSequenced r b h)
          | inr (_, same) ↦
              rw same (IsSequenced-accept first floor idx now (account_opened def cfg) b h)
        ])
  classify_job-IsSequenced idx now (register_asset def) b e h =
      subst (IsSequenced first floor) (some_inj e)
        (IsSequenced-accept first floor idx now (asset_registered def) b h)
  classify_job-IsSequenced idx now snapshot b e h =
      subst (IsSequenced first floor) (some_inj e)
        (record { numbered = h.numbered; rises = h.rises; next = h.next })

  classify_from-IsSequenced :
      (idx : ℕ) (jobs : List (Job × DateTime)) (b : Batch) {b' : Batch}
      → classify_from st disk idx jobs b ≡ some b'
      → IsSequenced first floor b
      → IsSequenced first floor b'
  unfolding classify_from
  classify_from-IsSequenced idx [] b e h = subst (IsSequenced first floor) (some_inj e) h
  classify_from-IsSequenced idx ((job, now) ∷ jobs) b e h =
      let (b₁, one, rest) = bind_option-eq-some (classify_job st disk idx now job b) _ e in
      classify_from-IsSequenced (idx + 1) jobs b₁ rest
        (classify_job-IsSequenced idx now job b one h)

-- Whatever jobs a batch holds, the staged events take the sequence numbers from `next_seq` on without
-- a gap, and their times do not go back, neither behind one another nor behind the last commit.
pub classify-IsSequenced :
    (st : BookState) (disk : HashMap String CommittedRec) (now : DateTime)
    (jobs : List (Job × DateTime)) {b : Batch}
    → classify st disk now jobs ≡ some b
    → IsSequenced st.next_seq (unwrap_or st.last_at 0) b
unfolding classify start_batch
classify-IsSequenced st disk now jobs h =
    classify_from-IsSequenced st.next_seq (unwrap_or st.last_at 0) st disk 0 jobs
      (start_batch st now) h (record { numbered = tt; rises = omega arith; next = omega arith })
