-- ===== src/Idem/Spill/Pending.antt =====
-- An index from which pairs were taken: what the map has and neither the memory nor the runs have is
-- among the pairs. Returning the pairs gives an index for the same map.
use talea.Prelude.{ℕ, ◌≡◌, refl, sym, ◌∙◌, ap, subst, String, true, inl, inr}
use talea.Prelude.{Option, none, some, [], ◌∷◌, All, All-append, if◌then◌else◌, Bool-cases}
use talea.Prelude.{Option-cases, arith}
use talea.Prelude.Eq.{string_eq, ◌=?◌}
use mathlib.Core.List.{reverse, reverse-cons}
use talea.HashMap.{HashMap, get, insert, get-insert, get-insert_cases, get-append}
use talea.Result.{or_else}
use talea.Idem.{CommittedRec, TieredIdem}
use talea.Idem.Filter.{Hasher, might_contain}
use talea.Idem.Filter.Sound.{IsBloom}
use talea.Idem.Order.{sort_by_key}
use talea.Idem.Order.Laws.{get-sort_by_key, All-sort_by_key}
use talea.Idem.Order.Search.{AllTrue, get-true}
use talea.Idem.Spill.{Pairs, Disk, RunFormat, read_all, drain, put_back}
use talea.Idem.Spill.Files.{Runs}
use talea.Idem.Spill.Index.{Known, IsIndex}
use talea.Idem.Spill.Drain.{get-drain, get-drain_hot, drain-AllTrue}

-- A key that an insertion leaves missing is not the one inserted.
still_missing :
    (k : String) (v : CommittedRec) (key : String) (hot : HashMap String CommittedRec)
    (extra : Pairs) {r : CommittedRec}
    → get key (insert k v hot) ≡ none
    → (get key hot ≡ none → get key ((k, v) ∷ extra) ≡ some r)
    → get key extra ≡ some r
unfolding get
still_missing k v key hot extra {r} cold h =
    let g = get-insert k key v hot in
    elim (Bool-cases (k =? key)) [
      | inl same ↦ absurd (ground (arith, g, same, cold))
      | inr other ↦
          let old : get key hot ≡ none = sym (g ∙ rw other refl) ∙ cold in
          let found : (if k =? key then some v else get key extra) ≡ some r = h old in
          rw other at found
    ]

All-reverse : (P : String × CommittedRec → Type 0) (xs : Pairs) → All P xs → All P (reverse xs)
All-reverse P [] h = tt
All-reverse P (x ∷ xs) h =
    subst (All P) (sym (reverse-cons x xs))
      (All-append P (reverse xs) (x ∷ []) (All-reverse P xs h.1) (h.0, tt))

-- Where a key has one value, the first pair and the last have it.
get-reverse :
    (known : Known) (key : String) (xs : Pairs) {r : CommittedRec}
    → AllTrue known xs
    → get key xs ≡ some r
    → get key (reverse xs) ≡ some r
unfolding get
get-reverse known key [] t e = absurd (cc e)
get-reverse known key (x ∷ xs) {r} t e =
    let back = ap (get key) (reverse-cons x xs) ∙ get-append key (reverse xs) (x ∷ []) in
    let k = get-true known key (x ∷ xs) t e in
    let t' = All-reverse _ xs t.1 in
    back ∙ (elim (Option-cases (get key (reverse xs))) [
      | inr (v, before) ↦ rw before (sym (get-true known key (reverse xs) t' before) ∙ k)
      | inl cold ↦ elim (Bool-cases (x.0 =? key)) [
        | inl same ↦ rw (cold, same) (sym (rw same refl) ∙ e)
        | inr other ↦
            let inner : get key xs ≡ some r = sym (rw other refl) ∙ e in
            absurd (cc (cold, get-reverse known key xs t.1 inner))
      ]
    ])

module _ (f : RunFormat) (h : Hasher) (disk : Disk) (known : Known) where
  pub record IsPending (t : TieredIdem) (extra : Pairs) : Type 0 where
    pub all : Pairs
    pub readable : read_all f disk t.runs ≡ some all
    pub runs : Runs f disk t.runs
    pub runs_true : AllTrue known all
    pub hot_true : (key : String) (r : CommittedRec) → get key t.hot ≡ some r → known key ≡ some r
    pub extra_true : AllTrue known extra
    pub missing :
        (key : String) (r : CommittedRec)
        → known key ≡ some r
        → get key t.hot ≡ none
        → get key all ≡ none
        → get key extra ≡ some r
    pub bloom : IsBloom t.bloom
    pub passes : All (λ p. might_contain h p.0 t.bloom ≡ true) all

  -- With no pair taken, this is an index.
  pub IsPending-IsIndex : (t : TieredIdem) → IsPending t [] → IsIndex f h disk t known
  unfolding get
  IsPending-IsIndex t p = record {
    all = p.all;
    readable = p.readable;
    runs = p.runs;
    runs_true = p.runs_true;
    hot_true = p.hot_true;
    complete = λ key.
        whole key (get key t.hot) (get key p.all) (known key) (p.hot_true key)
          (λ r e. get-true known key p.all p.runs_true e) (p.missing key);
    bloom = p.bloom;
    passes = p.passes;
  }
    where
      whole :
          (key : String) (o q k : Option CommittedRec)
          → ((r : CommittedRec) → o ≡ some r → k ≡ some r)
          → ((r : CommittedRec) → q ≡ some r → k ≡ some r)
          → ((r : CommittedRec) → k ≡ some r → o ≡ none → q ≡ none → none ≡ some r)
          → or_else o q ≡ k
      whole key (some r) q k a b c = sym (a r refl)
      whole key none (some r) k a b c = sym (b r refl)
      whole key none none none a b c = refl
      whole key none none (some r) a b c = c r refl refl refl

  -- The drained memory, with the pairs taken, in any order of the sort.
  pub drain-IsPending :
      (n : ℕ) (t : TieredIdem)
      → IsIndex f h disk t known
      → IsPending
          (record t { order = (drain n t.order t.hot).order; hot = (drain n t.order t.hot).hot })
          (sort_by_key (drain n t.order t.hot).spilled)
  drain-IsPending n t i =
      let d = drain n t.order t.hot in
      record {
        all = i.all;
        readable = i.readable;
        runs = i.runs;
        runs_true = i.runs_true;
        hot_true = λ key r e. i.hot_true key r (get-drain_hot n t.order t.hot key e);
        extra_true = All-sort_by_key _ d.spilled (drain-AllTrue known n t.order t.hot i.hot_true);
        missing = λ key r e cold no_run.
            let g = get-drain n t.order t.hot key in
            let c = i.complete key in
            get-sort_by_key d.spilled key ∙ ground (arith, g, c, e, cold, no_run);
        bloom = i.bloom;
        passes = i.passes;
      }

  put_back-IsPending :
      (extra : Pairs) (t : TieredIdem) → IsPending t extra → IsPending (put_back extra t) []
  unfolding put_back
  put_back-IsPending [] t p = p
  put_back-IsPending ((k, v) ∷ extra) t p =
      put_back-IsPending extra (record t { order = k ∷ t.order; hot = insert k v t.hot })
        (record {
          all = p.all;
          readable = p.readable;
          runs = p.runs;
          runs_true = p.runs_true;
          hot_true = λ key r e. elim (get-insert_cases k key v t.hot e) [
            | inl (same, value) ↦ ap known (sym same) ∙ p.extra_true.0 ∙ ap some value
            | inr old ↦ p.hot_true key r old
          ];
          extra_true = p.extra_true.1;
          missing = λ key r e cold no_run.
              still_missing k v key t.hot extra cold (λ old. p.missing key r e old no_run);
          bloom = p.bloom;
          passes = p.passes;
        })

  -- Returning the pairs gives back an index.
  pub put_back-IsIndex :
      (extra : Pairs) (t : TieredIdem)
      → IsPending t extra
      → IsIndex f h disk (put_back extra t) known
  put_back-IsIndex extra t p = IsPending-IsIndex (put_back extra t) (put_back-IsPending extra t p)

  pub reverse-IsPending :
      (extra : Pairs) (t : TieredIdem) → IsPending t extra → IsPending t (reverse extra)
  reverse-IsPending extra t p = record {
    all = p.all;
    readable = p.readable;
    runs = p.runs;
    runs_true = p.runs_true;
    hot_true = p.hot_true;
    extra_true = All-reverse _ extra p.extra_true;
    missing = λ key r e cold no_run.
        get-reverse known key extra p.extra_true (p.missing key r e cold no_run);
    bloom = p.bloom;
    passes = p.passes;
  }
