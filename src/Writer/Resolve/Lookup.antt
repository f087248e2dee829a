-- ===== src/Writer/Resolve/Lookup.antt =====
-- What the two passes over the keys of a batch find: all that the memory and the runs know.
use talea.Prelude.{◌≡◌, ◌≢◌, refl, ap, String, Bool, true, false, ◌||◌, Option, none, some}
use talea.Prelude.{List, [], ◌∷◌, arith, if◌then◌else◌, Option-cases, Bool-cases, inl, inr}
use talea.Prelude.Eq.{string_eq, ◌=?◌, beq_refl}
use talea.HashMap.{HashMap, get, get-insert}
use talea.Result.{or_else}
use text.Mathlib.TextEquality.{eq_iff}
use talea.Types.{DateTime}
use talea.Idem.{CommittedRec, get_hot}
use talea.State.{BookState}
use talea.Writer.Classify.{Job, commit, open_account, register_asset, snapshot}
use talea.Writer.Classify.Cases.{record_of}
use talea.Writer.Resolve.{Runs, IsSound, found, bloom_positive, insert_found, resolve}

abbrev pub has : String → List String → Bool
has k [] = false
has k (key ∷ keys) = key =? k || has k keys

get-insert_found :
    (o : Option CommittedRec) (key k : String) (resolved : HashMap String CommittedRec)
    → get k (insert_found o key resolved)
      ≡ (if key =? k then or_else o (get k resolved) else get k resolved)
unfolding insert_found
get-insert_found none key k resolved = ground arith
get-insert_found (some rec) key k resolved = ground (arith, get-insert key k rec resolved)

or_else_twice :
    (b : Bool) (o p : Option CommittedRec)
    → (if b then or_else o (or_else o p) else or_else o p) ≡ or_else o p
or_else_twice true none p = refl
or_else_twice true (some r) p = refl
or_else_twice false o p = refl

-- A key of the list is resolved to what is found for it; no other key changes.
resolve-get :
    (runs : Runs) (st : BookState) (keys : List String) (k : String)
    (resolved : HashMap String CommittedRec)
    → get k (resolve runs st keys resolved)
      ≡ (if has k keys then or_else (found runs st k) (get k resolved) else get k resolved)
unfolding resolve
resolve-get runs st [] k resolved = refl
resolve-get runs st (key ∷ keys) k resolved =
    let next = insert_found (found runs st key) key resolved in
    let h = resolve-get runs st keys k next in
    let g = get-insert_found (found runs st key) key k resolved in
    elim (Bool-cases (key =? k)) [
      | inr other ↦ rw (other, h, g, other) refl
      | inl same ↦
          let key_eq : key ≡ k = (eq_iff key k).0 same in
          let f : found runs st key ≡ found runs st k = ap (found runs st) key_eq in
          rw (same, h, g, same, f) (or_else_twice (has k keys) (found runs st k) (get k resolved))
    ]

-- The commits of a batch with a property of their keys.
abbrev pub Keys : (String → Type 0) → List (Job × DateTime) → Type 0
Keys P [] = Unit
Keys P ((commit tx, _) ∷ jobs) = P tx.idempotency_key × Keys P jobs
Keys P ((open_account def cfg, _) ∷ jobs) = Keys P jobs
Keys P ((register_asset def, _) ∷ jobs) = Keys P jobs
Keys P ((snapshot, _) ∷ jobs) = Keys P jobs

module _ (runs : Runs) (st : BookState) where
  -- A key that only the runs have is in the list.
  abbrev pub Covered : List String → String → Type 0
  Covered keys k = get_hot k st.idem ≡ none → runs.lookup k ≢ none → has k keys ≡ true

  pub Covered-bloom_positive :
      (keys : List String) (jobs : List (Job × DateTime))
      → IsSound runs
      → ((k : String) → has k (bloom_positive runs st jobs) ≡ true → has k keys ≡ true)
      → Keys (Covered keys) jobs
  unfolding bloom_positive
  Covered-bloom_positive keys [] sound sub = tt
  Covered-bloom_positive keys ((commit tx, now) ∷ jobs) sound sub =
      let key = tx.idempotency_key in
      (
        (λ cold known. sub key (ground (arith, cold, sound key known, beq_refl key))),
        Covered-bloom_positive keys jobs sound (λ k there. sub k (ground (arith, there))),
      )
  Covered-bloom_positive keys ((open_account def cfg, now) ∷ jobs) sound sub =
      Covered-bloom_positive keys jobs sound sub
  Covered-bloom_positive keys ((register_asset def, now) ∷ jobs) sound sub =
      Covered-bloom_positive keys jobs sound sub
  Covered-bloom_positive keys ((snapshot, now) ∷ jobs) sound sub =
      Covered-bloom_positive keys jobs sound sub

  pub record_of-resolve :
      (keys : List String) (k : String)
      → Covered keys k
      → record_of k st (resolve runs st keys []) ≡ found runs st k
  unfolding get
  record_of-resolve keys k covered =
      let h = resolve-get runs st keys k [] in
      elim (Option-cases (get_hot k st.idem)) [
        | inr (rec, hot) ↦ rw hot refl
        | inl cold ↦ elim (Option-cases (runs.lookup k)) [
          | inl unknown ↦ ground (arith, h, cold, unknown)
          | inr (rec, known) ↦
              let listed = covered cold (λ e. absurd (cc (e, known))) in
              ground (arith, h, cold, known, listed)
        ]
      ]

  pub Keys-map :
      (P Q : String → Type 0) (jobs : List (Job × DateTime))
      → ((k : String) → P k → Q k)
      → Keys P jobs
      → Keys Q jobs
  Keys-map P Q [] f h = tt
  Keys-map P Q ((commit tx, now) ∷ jobs) f h = (f tx.idempotency_key h.0, Keys-map P Q jobs f h.1)
  Keys-map P Q ((open_account def cfg, now) ∷ jobs) f h = Keys-map P Q jobs f h
  Keys-map P Q ((register_asset def, now) ∷ jobs) f h = Keys-map P Q jobs f h
  Keys-map P Q ((snapshot, now) ∷ jobs) f h = Keys-map P Q jobs f h
