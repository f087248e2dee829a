-- ===== src/Writer/Settle/Minimum.antt =====
-- The minimum balances over a whole turn of the writer.
use talea.Prelude.{ℕ, ◌+◌, ◌≡◌, subst, sym, ap, ◌∙◌, String, some}
use talea.Prelude.{List, [], ◌∷◌, arith, Option-cases, inl, inr, ◌⊎◌}
use talea.Prelude.Eq.{string_eq}
use talea.Prelude.Int.{ℤ, pos, ◌≤ℤ◌}
use talea.HashMap.{HashMap, get}
use talea.Result.{ok, bind_option-eq-some, some_inj, or_else}
use talea.Types.{Posting, Transaction, AccountCfg}
use talea.Types.{DateTime}
use talea.Idem.{CommittedRec}
use talea.State.{AccountState, BookState, Scratch, FramePos}
use talea.State.Data.{effective}
use talea.State.Validate.{validate, stage, seed, committed_raw}
use talea.State.Validate.Staging.{validate-ok, validate-scratch, get-seed, stage-validate_lem}
use talea.State.Validate.MinBalance.{check_projected-get, check_min-ok}
use talea.Writer.Classify.{Job, Batch, commit, open_account, register_asset, snapshot}
use talea.Writer.Classify.{start_batch, accept, reply_with}
use talea.Writer.Classify.{classify_job, classify_from, classify}
use talea.Writer.Classify.Cases.{classify_commit-cases, classify_open-cases}
use talea.Writer.Settle.{apply_staged, placed}
use talea.Writer.Settle.Applies.{classify-Applies}
use talea.Writer.Settle.Configured.{Extends-self, apply_staged-Extends}

-- An account has not moved, or it holds at least the minimum that it sets.
abbrev pub Fine : AccountCfg → ℤ → Type 0
Fine cfg v =
    (v ≡ pos 0) ⊎ ((min : ℤ) → cfg.min_balance ≡ some min → min ≤ℤ effective v cfg.normal_side)

abbrev pub KeepsMinima : HashMap String AccountState → Type 0
KeepsMinima accounts =
    (k : String) (a : AccountState) → get k accounts ≡ some a → Fine a.cfg a.raw_balance

-- The overlay keeps the minima of the accounts.
abbrev OverlayFine : HashMap String AccountState → HashMap String ℤ → Type 0
OverlayFine accounts raw =
    (k : String) (a : AccountState) (v : ℤ)
    → get k accounts ≡ some a
    → get k raw ≡ some v
    → Fine a.cfg v

OverlayFine-seed :
    (accounts : HashMap String AccountState) (ps : List Posting) (raw : HashMap String ℤ)
    → KeepsMinima accounts
    → OverlayFine accounts raw
    → OverlayFine accounts (seed accounts ps raw)
unfolding committed_raw
OverlayFine-seed accounts ps raw m h k a v there e = elim (get-seed accounts ps raw k) [
  | inl same ↦ h k a v there (sym same ∙ e)
  | inr (_, seeded) ↦
      let is_raw : a.raw_balance ≡ v = some_inj (ground (arith, there, seeded, e)) in
      subst (Fine a.cfg) is_raw (m k a there)
]

module _ (st : BookState) (minima : KeepsMinima st.accounts) where
  OverlayFine-validate :
      (tx : Transaction) (scratch : Scratch)
      → OverlayFine st.accounts scratch.raw
      → OverlayFine st.accounts (validate st tx scratch).1.raw
  OverlayFine-validate tx scratch h = elim (validate-scratch st tx scratch) [
    | inl same ↦ rw same h
    | inr (_, same) ↦ rw same (OverlayFine-seed st.accounts tx.postings scratch.raw minima h)
  ]

  OverlayFine-stage :
      (tx : Transaction) (scratch staged : Scratch)
      → (validate st tx scratch).0 ≡ ok tt
      → stage tx (validate st tx scratch).1 ≡ some staged
      → OverlayFine st.accounts scratch.raw
      → OverlayFine st.accounts staged.raw
  OverlayFine-stage tx scratch staged h went fine k a v there e =
      let (final, projected, checked, _, same) = validate-ok st tx scratch h in
      let (staged', went', overlays, _) = stage-validate_lem st tx scratch same projected in
      let is_staged : staged' ≡ staged = some_inj (sym went' ∙ went) in
      let seeded = seed st.accounts tx.postings scratch.raw in
      let now_raw : or_else (get k final) (get k seeded) ≡ some v =
        sym (overlays k) ∙ ap (λ (c : Scratch). get k c.raw) is_staged ∙ e in
      elim (Option-cases (get k final)) [
        | inl untouched ↦
            OverlayFine-seed st.accounts tx.postings scratch.raw minima fine k a v there
              (ground (arith, untouched, now_raw))
        | inr (w, touched) ↦
            let is_v : get k final ≡ some v = ground (arith, touched, now_raw) in
            inr λ min sets.
              check_min-ok a min v
                (rw there at (check_projected-get st.accounts final k v checked is_v)) sets
      ]

module _ (st : BookState) (minima : KeepsMinima st.accounts)
    (disk : HashMap String CommittedRec) where
  classify_job-Fine :
      (idx : ℕ) (now : DateTime) (job : Job) (b : Batch) {b' : Batch}
      → classify_job st disk idx now job b ≡ some b'
      → OverlayFine st.accounts b.scratch.raw
      → OverlayFine st.accounts b'.scratch.raw
  unfolding classify_job accept reply_with
  classify_job-Fine idx now (commit tx) b {b'} e h =
      elim (classify_commit-cases idx now tx b st disk e) [
        | inl (r, same, _) ↦ rw same h
        | inr (_, _, inl (_, _, same)) ↦ rw same (OverlayFine-validate st minima tx b.scratch h)
        | inr (_, _, inr (staged, valid, went, same)) ↦
            rw same (OverlayFine-stage st minima tx b.scratch staged valid went h)
      ]
  classify_job-Fine idx now (open_account def cfg) b e h =
      subst (λ (c : Batch). OverlayFine st.accounts c.scratch.raw) (some_inj e)
        (elim (classify_open-cases st idx now def cfg b) [
          | inl (r, same, _) ↦ rw same h
          | inr (_, same) ↦ rw same h
        ])
  classify_job-Fine idx now (register_asset def) b e h =
      subst (λ (c : Batch). OverlayFine st.accounts c.scratch.raw) (some_inj e) h
  classify_job-Fine idx now snapshot b e h =
      subst (λ (c : Batch). OverlayFine st.accounts c.scratch.raw) (some_inj e) h

  classify_from-Fine :
      (idx : ℕ) (jobs : List (Job × DateTime)) (b : Batch) {b' : Batch}
      → classify_from st disk idx jobs b ≡ some b'
      → OverlayFine st.accounts b.scratch.raw
      → OverlayFine st.accounts b'.scratch.raw
  unfolding classify_from
  classify_from-Fine idx [] b e h =
      subst (λ (c : Batch). OverlayFine st.accounts c.scratch.raw) (some_inj e) h
  classify_from-Fine idx ((job, now) ∷ jobs) b e h =
      let (b₁, one, rest) = bind_option-eq-some (classify_job st disk idx now job b) _ e in
      classify_from-Fine (idx + 1) jobs b₁ rest (classify_job-Fine idx now job b one h)

  pub classify-Fine :
      (now : DateTime) (jobs : List (Job × DateTime)) {b : Batch}
      → classify st disk now jobs ≡ some b
      → OverlayFine st.accounts b.scratch.raw
  unfolding classify start_batch get
  classify-Fine now jobs e = classify_from-Fine 0 jobs (start_batch st now) e (λ k a v there f. cc)

-- The minimum balances are safe over any batch, wherever its frames are written: if every account of
-- the committed state has the balance 0 or at least its minimum, then so has every account of the state
-- that the staged events lead to.
pub apply_staged-KeepsMinima :
    (places : ℕ → FramePos) (st : BookState) (disk : HashMap String CommittedRec) (now : DateTime)
    (jobs : List (Job × DateTime)) {b : Batch}
    → classify st disk now jobs ≡ some b
    → KeepsMinima st.accounts
    → (st' : BookState) × (apply_staged (placed places 0 b.staged) st ≡ some st')
      × KeepsMinima st'.accounts
unfolding committed_raw
apply_staged-KeepsMinima places st disk now jobs {b} e minima =
    let (st', applied, follows, known) = classify-Applies places st disk now jobs e in
    let extends =
      apply_staged-Extends st.accounts (placed places 0 b.staged) st applied
        (Extends-self st.accounts) in
    let fine = classify-Fine st minima disk now jobs e in
    (
      st',
      applied,
      λ k a there. elim (Option-cases (get k b.scratch.raw)) [
        | inl untouched ↦
            let is_base : a.raw_balance ≡ committed_raw st.accounts k =
              ground (arith, follows k a there, untouched) in
            elim (extends.configured k a there) [
              | inl absent ↦ inl (ground (arith, is_base, absent))
              | inr (o, at_base, same) ↦
                  let is_old : o.raw_balance ≡ a.raw_balance = ground (arith, is_base, at_base) in
                  subst (λ c. Fine c a.raw_balance) (sym same)
                    (subst (Fine o.cfg) is_old (minima k o at_base))
            ]
        | inr (v, touched) ↦
            let is_v : v ≡ a.raw_balance = ground (arith, follows k a there, touched) in
            elim (extends.configured k a there) [
              | inl absent ↦ absurd (ground (arith, known k absent, touched))
              | inr (o, at_base, same) ↦
                  subst (λ c. Fine c a.raw_balance) (sym same)
                    (subst (Fine o.cfg) is_v (fine k o v at_base touched))
            ]
      ],
    )
