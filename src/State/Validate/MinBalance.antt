-- ===== src/State/Validate/MinBalance.antt =====
-- What `validate` guarantees about the balances after the transaction.
use text.Mathlib.TextEquality.{eq_iff}
use talea.Prelude.{
  String, ◌≡◌, ◌≢◌, subst, none, some, List, [], ◌∷◌, arith, All, All-map, sym, ◌∙◌,
}
use talea.Prelude.{Option-cases, inl, inr}
use talea.Prelude.Eq.{string_eq, beq_refl}
use talea.Prelude.Int.{ℤ, pos, ◌≤ℤ◌}
use talea.HashMap.{HashMap, get, insert, get-insert}
use talea.Result.{ok, unwrap_or, ok_inj, some_inj, >>=-eq-ok}
use talea.Types.{Posting, Transaction, to_key}
use talea.State.Data.{AccountState, BookState, Scratch, effective}
use talea.State.Validate.{post_raw, project, check_min, check_projected, seed, validate, stage}
use talea.State.Validate.Staging.{validate-ok, stage-validate_lem, Overlays}

-- The balance of the posting's account does not fall below the minimum that the account sets.
abbrev pub KeepsMin : HashMap String AccountState → HashMap String ℤ → Posting → Type 0
KeepsMin accounts raw p =
    (acct : AccountState) (min v : ℤ)
    → get (to_key p.account) accounts ≡ some acct
    → acct.cfg.min_balance ≡ some min
    → get (to_key p.account) raw ≡ some v
    → min ≤ℤ effective v acct.cfg.normal_side

pub check_projected-get :
    (accounts : HashMap String AccountState) (m : HashMap String ℤ) (k : String) (v : ℤ)
    → check_projected accounts m ≡ ok tt
    → get k m ≡ some v
    → check_min (get k accounts) v ≡ ok tt
unfolding check_projected get
check_projected-get accounts [] k v h e = cc
check_projected-get accounts ((j, w) ∷ m) k v h e =
    let (_, first, rest) =
      >>=-eq-ok (check_min (get j accounts) w) (λ _. check_projected accounts m) h in
    ground (arith, eq_iff j k, check_projected-get accounts m k v rest)

-- The projection drops no balance.
project-keeps :
    (raw : HashMap String ℤ) (ps : List Posting) (projected : HashMap String ℤ)
    {final : HashMap String ℤ} (k : String)
    → get k projected ≢ none
    → project raw ps projected ≡ ok final
    → get k final ≢ none
unfolding project
project-keeps raw [] projected k h e = subst (λ (m : HashMap String ℤ). get k m ≢ none) (ok_inj e) h
project-keeps raw (p ∷ ps) projected k h e =
    let key = to_key p.account in
    let entry = unwrap_or (get key projected) (unwrap_or (get key raw) (pos 0)) in
    elim (Option-cases (post_raw p.direction entry p.amount.minor)) [
      | inl overflow ↦ absurd (ground (arith, overflow))
      | inr (v, moved) ↦
          project-keeps raw ps (insert key v projected) k
            (ground (arith, get-insert key k v projected)) (rw moved at e)
    ]

-- Every account of a posting has a projected balance.
project-touches :
    (raw : HashMap String ℤ) (ps : List Posting) (projected : HashMap String ℤ)
    {final : HashMap String ℤ}
    → project raw ps projected ≡ ok final
    → All (λ p. get (to_key p.account) final ≢ none) ps
unfolding project
project-touches raw [] projected e = tt
project-touches raw (p ∷ ps) projected e =
    let key = to_key p.account in
    let entry = unwrap_or (get key projected) (unwrap_or (get key raw) (pos 0)) in
    elim (Option-cases (post_raw p.direction entry p.amount.minor)) [
      | inl overflow ↦ absurd (ground (arith, overflow))
      | inr (v, moved) ↦
          let rest = rw moved at e in
          (
            project-keeps raw ps (insert key v projected) key
                (ground (arith, get-insert key key v projected, beq_refl key)) rest,
            project-touches raw ps (insert key v projected) rest,
          )
    ]

pub check_min-ok :
    (acct : AccountState) (min v : ℤ)
    → check_min (some acct) v ≡ ok tt
    → acct.cfg.min_balance ≡ some min
    → min ≤ℤ effective v acct.cfg.normal_side
unfolding check_min
check_min-ok acct min v h e = ground (arith, e)

KeepsMin-of_projected :
    (accounts : HashMap String AccountState) (seeded final raw : HashMap String ℤ) (p : Posting)
    → check_projected accounts final ≡ ok tt
    → Overlays seeded final raw
    → get (to_key p.account) final ≢ none
    → KeepsMin accounts raw p
KeepsMin-of_projected accounts seeded final raw p h o touched acct min v ea em ev =
    let key = to_key p.account in
    let known : get key final ≡ some v = ground (arith, o key) in
    let checked = check_projected-get accounts final key v h known in
    check_min-ok acct min v (rw ea at checked) em

-- After an accepted transaction is staged, every account that it touches and that sets a minimum
-- has, seen from its normal side, at least that minimum in the overlay.
pub validate-KeepsMin :
    (st : BookState) (tx : Transaction) (scratch : Scratch) {staged : Scratch}
    → (validate st tx scratch).0 ≡ ok tt
    → stage tx (validate st tx scratch).1 ≡ some staged
    → All (KeepsMin st.accounts staged.raw) tx.postings
validate-KeepsMin st tx scratch {staged} h went =
    let (final, projected, checked, _, same) = validate-ok st tx scratch h in
    let (staged', went', overlays, _) = stage-validate_lem st tx scratch same projected in
    let seeded = seed st.accounts tx.postings scratch.raw in
    let is_staged : staged' ≡ staged = some_inj (sym went' ∙ went) in
    subst (λ (c : Scratch). All (KeepsMin st.accounts c.raw) tx.postings) is_staged
      (All-map (λ p. get (to_key p.account) final ≢ none) (KeepsMin st.accounts staged'.raw)
        (λ p touched.
          KeepsMin-of_projected st.accounts seeded final staged'.raw p checked overlays touched)
        tx.postings (project-touches seeded tx.postings [] projected))
