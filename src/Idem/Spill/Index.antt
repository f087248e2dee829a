-- ===== src/Idem/Spill/Index.antt =====
-- The index stands for a finite map of keys to commits: what `get` answers is that map, whether a key is
-- in the memory or in a run.
use talea.Prelude.{◌≡◌, ◌≢◌, refl, sym, ◌∙◌, ap, String, true, inl}
use talea.Prelude.{inr, Option, none, some, All, All-map, if◌then◌else◌, Bool-cases}
use talea.Prelude.{Option-cases, arith}
use talea.Prelude.Eq.{string_eq, ◌=?◌}
use talea.HashMap.{get, get-insert, get-All}
use talea.Result.{or_else}
use text.Mathlib.TextEquality.{eq_iff}
use talea.Idem.{CommittedRec, TieredIdem, idem_insert}
use talea.Idem.Filter.{Hasher, might_contain}
use talea.Idem.Filter.Sound.{IsBloom}
use talea.Idem.Order.Search.{AllTrue}
use talea.Idem.Spill.{Pairs, Disk, RunFormat, read_all, lookup_runs, idem_get}
use talea.Idem.Spill.Files.{Runs, lookup_runs-eq-get}

-- A map of keys to commits.
abbrev pub Known : Type 0
Known = String → Option CommittedRec

known_before :
    (key : String) (rec : CommittedRec) (known : Known)
    → known key ≡ none
    → (p : String × CommittedRec) → known p.0 ≡ some p.1
    → (if key =? p.0 then some rec else known p.0) ≡ some p.1
known_before key rec known fresh p e = elim (Bool-cases (key =? p.0)) [
  | inr other ↦ rw other e
  | inl same ↦ let k : key ≡ p.0 = (eq_iff key p.0).0 same in absurd (cc (fresh, ap known k, e))
]

inserted :
    (key : String) (rec : CommittedRec) (other : String) (known : Known) (o : Option CommittedRec)
    {r : CommittedRec}
    → ((s : CommittedRec) → o ≡ some s → known other ≡ some s)
    → (if key =? other then some rec else o) ≡ some r
    → (if key =? other then some rec else known other) ≡ some r
inserted key rec other known o {r} h e = elim (Bool-cases (key =? other)) [
  | inl same ↦ rw same (rw same at e)
  | inr new ↦ rw new (h r (rw new at e))
]

module _ (f : RunFormat) (h : Hasher) (disk : Disk) where
  -- The index, with the files as they are, stands for the map `known`.
  pub record IsIndex (t : TieredIdem) (known : Known) : Type 0 where
    pub all : Pairs
    pub readable : read_all f disk t.runs ≡ some all
    pub runs : Runs f disk t.runs
    pub runs_true : AllTrue known all
    pub hot_true : (key : String) (r : CommittedRec) → get key t.hot ≡ some r → known key ≡ some r
    pub complete : (key : String) → or_else (get key t.hot) (get key all) ≡ known key
    pub bloom : IsBloom t.bloom
    pub passes : All (λ p. might_contain h p.0 t.bloom ≡ true) all

  module _ (t : TieredIdem) (known : Known) (i : IsIndex t known) where
    pub lookup_runs-all : (key : String) → lookup_runs f disk key t.runs ≡ get key i.all
    lookup_runs-all key = lookup_runs-eq-get f disk known key t.runs i.runs i.readable i.runs_true

    pub passes-lookup_runs :
        (key : String) → lookup_runs f disk key t.runs ≢ none → might_contain h key t.bloom ≡ true
    passes-lookup_runs key there = elim (Option-cases (get key i.all)) [
      | inl absent ↦ absurd (there (lookup_runs-all key ∙ absent))
      | inr (r, present) ↦
          get-All (λ p. might_contain h p.0 t.bloom ≡ true) key i.all i.passes present
    ]

    -- Let the index, with the run files as they are, stand for a map of keys to commits. Then `get`
    -- answers for every key what the map has, by the memory, or by the filter and the runs.
    pub idem_get-eq : (key : String) → idem_get f h disk key t ≡ known key
    unfolding idem_get
    idem_get-eq key =
        let all = i.complete key in
        let found = lookup_runs-all key in
        elim (Option-cases (get key t.hot)) [
          | inr (r, hot) ↦ rw (hot, idem_get) (sym (i.hot_true key r hot))
          | inl cold ↦ elim (Bool-cases (might_contain h key t.bloom)) [
            | inl maybe ↦ rw (cold, maybe, idem_get) (found ∙ sym (rw cold refl) ∙ all)
            | inr never ↦ elim (Option-cases (get key i.all)) [
              | inl absent ↦ rw (cold, never, idem_get) (sym (sym all ∙ rw (cold, absent) refl))
              | inr (r, present) ↦ absurd (
                  cc (
                    never,
                    get-All (λ p. might_contain h p.0 t.bloom ≡ true) key i.all i.passes present,
                  ))
            ]
          ]
        ]

  -- The insertion of a key that the map does not have adds its commit to the map.
  pub idem_insert-IsIndex :
      (key : String) (rec : CommittedRec) (t : TieredIdem) (known : Known)
      → known key ≡ none
      → IsIndex t known
      → IsIndex (idem_insert key rec t) (λ other. if key =? other then some rec else known other)
  unfolding idem_insert
  idem_insert-IsIndex key rec t known fresh i = record {
    all = i.all;
    readable = i.readable;
    runs = i.runs;
    runs_true = All-map _ _ (known_before key rec known fresh) i.all i.runs_true;
    hot_true = λ other r e.
        inserted key rec other known (get other t.hot) (i.hot_true other)
          (sym (get-insert key other rec t.hot) ∙ e);
    complete = λ other. ground (arith, get-insert key other rec t.hot, i.complete other);
    bloom = i.bloom;
    passes = i.passes;
  }
