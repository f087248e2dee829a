-- ===== src/State/Validate/Staging.antt =====
-- `stage` after `validate`: the overlay takes the balances that `validate` projected.
use talea.Prelude.{String, ◌≡◌, ◌≢◌, refl, none, some, List, [], ◌∷◌, arith}
use talea.Prelude.{Bool-cases, All, Option-cases, ◌⊎◌, inl, inr}
use talea.Prelude.Eq.{string_eq, beq_refl}
use talea.Prelude.Int.{ℤ, pos}
use talea.HashMap.{HashMap, get, insert, or_insert, get-insert, get-or_insert}
use talea.Result.{ok, or_else, unwrap_or, Result-cases}
use talea.Types.{Posting, Transaction, to_key, is_reserved}
use talea.State.Data.{AccountState, BookState, Scratch}
use talea.State.Validate.{
  post_raw, project, stage_postings, seed, committed_raw, validate, stage, check_accounts,
  check_projected,
}
use text.Mathlib.TextEquality.{eq_iff}

-- Every posting has an entry in the overlay.
abbrev pub IsSeeded : HashMap String ℤ → List Posting → Type 0
IsSeeded raw = All (λ p. get (to_key p.account) raw ≢ none)

-- `raw'` is `raw` with the balances of `projected` on top.
abbrev pub Overlays : HashMap String ℤ → HashMap String ℤ → HashMap String ℤ → Type 0
Overlays raw projected raw' = (k : String) → get k raw' ≡ or_else (get k projected) (get k raw)

Overlays-insert :
    (raw projected raw' : HashMap String ℤ) (key : String) (v : ℤ)
    → Overlays raw projected raw'
    → Overlays raw (insert key v projected) (insert key v raw')
Overlays-insert raw projected raw' key v h k =
    ground (arith, get-insert key k v projected, get-insert key k v raw', h k)

-- The balance that the projection starts from is the one in the overlay.
entry-some :
    (raw projected raw' : HashMap String ℤ) (key : String)
    → get key raw ≢ none
    → Overlays raw projected raw'
    → get key raw' ≡ some (unwrap_or (get key projected) (unwrap_or (get key raw) (pos 0)))
entry-some raw projected raw' key s o = ground (arith, o key)

-- Staging goes through whenever the projection did, and leaves the projected balances.
pub stage-project :
    (raw : HashMap String ℤ) (ps : List Posting) (projected raw' : HashMap String ℤ)
    {final : HashMap String ℤ}
    → IsSeeded raw ps
    → Overlays raw projected raw'
    → project raw ps projected ≡ ok final
    → (raw'' : HashMap String ℤ) × (stage_postings ps raw' ≡ some raw'') × Overlays raw final raw''
unfolding project stage_postings
stage-project raw [] projected raw' s o h = (raw', refl, λ k. cc (o k))
stage-project raw (p ∷ ps) projected raw' s o h =
    let key = to_key p.account in
    let entry = unwrap_or (get key projected) (unwrap_or (get key raw) (pos 0)) in
    elim (Option-cases (post_raw p.direction entry p.amount.minor)) [
      | inl overflow ↦ absurd (ground (arith, overflow))
      | inr (v, moved) ↦
          rw (entry-some raw projected raw' key s.0 o, moved)
            (stage-project raw ps (insert key v projected) (insert key v raw') s.1
              (Overlays-insert raw projected raw' key v o) (rw moved at h))
    ]

-- Seeding drops no entry.
seed-keeps :
    (accounts : HashMap String AccountState) (ps : List Posting) (raw : HashMap String ℤ)
    (k : String)
    → get k raw ≢ none
    → get k (seed accounts ps raw) ≢ none
unfolding seed
seed-keeps accounts [] raw k h = h
seed-keeps accounts (p ∷ ps) raw k h =
    let key = to_key p.account in
    let v = committed_raw accounts key in
    seed-keeps accounts ps (or_insert key v raw) k (ground (arith, get-or_insert key k v raw))

-- Seeding gives every account of the postings an entry.
pub seed-IsSeeded :
    (accounts : HashMap String AccountState) (ps : List Posting) (raw : HashMap String ℤ)
    → IsSeeded (seed accounts ps raw) ps
unfolding seed
seed-IsSeeded accounts [] raw = tt
seed-IsSeeded accounts (p ∷ ps) raw =
    let key = to_key p.account in
    let v = committed_raw accounts key in
    (
      seed-keeps accounts ps (or_insert key v raw) key
          (ground (arith, get-or_insert key key v raw, beq_refl key)),
      seed-IsSeeded accounts ps (or_insert key v raw),
    )

-- Seeding leaves an entry alone, or adds the committed balance where there was none.
pub get-seed :
    (accounts : HashMap String AccountState) (ps : List Posting) (raw : HashMap String ℤ)
    (k : String)
    → (get k (seed accounts ps raw) ≡ get k raw)
      ⊎ ((get k raw ≡ none) × (get k (seed accounts ps raw) ≡ some (committed_raw accounts k)))
unfolding seed
get-seed accounts [] raw k = inl refl
get-seed accounts (p ∷ ps) raw k =
    let key = to_key p.account in
    let v = committed_raw accounts key in
    ground
      (arith, get-seed accounts ps (or_insert key v raw) k, get-or_insert key k v raw, eq_iff key k)

Overlays-empty : (raw : HashMap String ℤ) → Overlays raw [] raw
unfolding get
Overlays-empty raw k = refl

-- What a positive verdict means, test by test.
pub validate-ok :
    (st : BookState) (tx : Transaction) (scratch : Scratch)
    → (validate st tx scratch).0 ≡ ok tt
    → (final : HashMap String ℤ) × (project
          (seed st.accounts tx.postings scratch.raw)
          tx.postings
          []
        ≡ ok final)
      × (check_projected st.accounts final ≡ ok tt)
      × (check_accounts st.accounts tx.postings ≡ ok tt)
      × ((validate st tx scratch).1
          ≡ record scratch { raw = seed st.accounts tx.postings scratch.raw })
unfolding validate
validate-ok st tx scratch h =
    elim (Result-cases (project (seed st.accounts tx.postings scratch.raw) tx.postings [])) [
      | inl (final, e) ↦ (final, e, ground (arith, e), ground (arith, e), ground (arith, e))
      | inr (er, e) ↦ absurd (ground (arith, e))
    ]

-- Staging an accepted transaction leaves the projected balances in the overlay.
pub stage-validate_lem :
    (st : BookState) (tx : Transaction) (scratch : Scratch) {final : HashMap String ℤ}
    → (validate st tx scratch).1 ≡ record scratch { raw = seed st.accounts tx.postings scratch.raw }
    → project (seed st.accounts tx.postings scratch.raw) tx.postings [] ≡ ok final
    → (staged : Scratch) × (stage tx (validate st tx scratch).1 ≡ some staged)
      × Overlays (seed st.accounts tx.postings scratch.raw) final staged.raw
      × (staged.idem ≡ scratch.idem)
unfolding stage
stage-validate_lem st tx scratch same projected =
    let seeded = seed st.accounts tx.postings scratch.raw in
    let (raw, went, overlays) =
      stage-project seeded tx.postings [] seeded (seed-IsSeeded st.accounts tx.postings scratch.raw)
        (Overlays-empty seeded) projected in
    (record scratch { raw = raw }, rw (same, went) refl, overlays, refl)

-- A transaction that `validate` accepts can be staged: the writer's fatal error is not reached.
pub stage-validate :
    (st : BookState) (tx : Transaction) (scratch : Scratch)
    → (validate st tx scratch).0 ≡ ok tt
    → (staged : Scratch) × (stage tx (validate st tx scratch).1 ≡ some staged)
stage-validate st tx scratch h =
    let (final, projected, _, _, same) = validate-ok st tx scratch h in
    let (staged, went, _, _) = stage-validate_lem st tx scratch same projected in (staged, went)

-- The overlay after a verdict: as it was, or seeded for postings whose accounts all exist.
pub validate-scratch :
    (st : BookState) (tx : Transaction) (scratch : Scratch)
    → ((validate st tx scratch).1 ≡ scratch)
      ⊎ ((check_accounts st.accounts tx.postings ≡ ok tt)
          × ((validate st tx scratch).1
              ≡ record scratch { raw = seed st.accounts tx.postings scratch.raw }))
unfolding validate
validate-scratch st tx scratch = elim (Bool-cases (is_reserved tx.book)) [
  | inl e ↦ inl (ground (arith, e))
  | inr e ↦ elim (Result-cases (check_accounts st.accounts tx.postings)) [
    | inl (tt, c) ↦ inr (c, rw (e, c) refl)
    | inr (er, c) ↦ inl (rw (e, c) refl)
  ]
]
