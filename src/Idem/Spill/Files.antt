-- ===== src/Idem/Spill/Files.antt =====
-- Run files: a run that is written is read back, and a lookup in one finds what its pairs have.
use talea.Prelude.{ℕ, ◌<◌, ◌≡◌, refl, sym, ◌∙◌, ap, String, true, false}
use talea.Prelude.{inl, inr, Option, none, some, List, [], ◌∷◌, ◌++◌, All, All-map}
use talea.Prelude.{Bool-cases, Option-cases, ==_iff, arith, subst}
use talea.Prelude.Eq.{nat_eq, string_eq, ◌=?◌}
use text.Mathlib.TextEquality.{eq_iff}
use talea.HashMap.{get, insert, get-insert, get-insert_self, get-append}
use talea.Result.{ok, or_else, some_inj, ok_inj, Result-cases}
use talea.Frame.{to_le_bytes}
use talea.Frame.RoundTrip.{le_bytes_lem}
use talea.Idem.{CommittedRec, RunMeta}
use talea.Idem.Order.{str_lt, NotBelow, IsSorted}
use talea.Idem.Order.Laws.{ge_trans, lt_irrefl}
use talea.Idem.Order.Search.{AllTrue, binary_search-eq-get, get-none, get-true}
use talea.Idem.Spill.{Pairs, Disk, RunFormat, IsRunFormat, encode_run, decode_run, read_run}
use talea.Idem.Spill.{lookup_run, lookup_runs, next_run_n, min_key, max_key, read_all}

module _ (f : RunFormat) (h : IsRunFormat f) where
  -- A run that was encoded is decoded to the pairs that it was made of, if the JSON codec reads back what
  -- it wrote and the checksum is a `u32`.
  pub decode_run-encode_run :
      (pairs : Pairs) (bytes : List ℕ)
      → encode_run f pairs ≡ ok bytes
      → decode_run f bytes ≡ ok pairs
  unfolding encode_run decode_run to_le_bytes
  decode_run-encode_run pairs bytes e = elim (Result-cases (f.to_vec pairs)) [
    | inr (text, fails) ↦ absurd (ground (arith, e, fails))
    | inl (payload, written) ↦
        let e' = rw (written, encode_run) at e in
        let number = le_bytes_lem (f.hash payload) (h.hash_u32 payload) in
        let checked = (==_iff (f.hash payload) (f.hash payload)).1 refl in
        subst (λ b. decode_run f b ≡ ok pairs) (ok_inj e')
          (rw (number, checked, h.reads_back pairs payload written) refl)
  ]

-- All keys lie between the first and the last.
max_key_lem : (pairs : Pairs) → IsSorted pairs → All (λ p. str_lt (max_key pairs) p.0 ≡ false) pairs
unfolding max_key
max_key_lem [] s = tt
max_key_lem (p ∷ []) s = (lt_irrefl p.0, tt)
max_key_lem (p ∷ q ∷ ps) s =
    let rest = max_key_lem (q ∷ ps) s.1 in (ge_trans p.0 q.0 (max_key (q ∷ ps)) s.0.0 rest.0, rest)

ne_of_lt : (a b key : String) → str_lt a key ≡ true → str_lt a b ≡ false → (b =? key) ≡ false
ne_of_lt a b key l n = elim (Bool-cases (b =? key)) [
  | inr other ↦ other
  | inl same ↦ let k : b ≡ key = (eq_iff b key).0 same in absurd (cc (ap (str_lt a) k, l, n))
]

ne_of_gt : (a b key : String) → str_lt key a ≡ true → str_lt b a ≡ false → (b =? key) ≡ false
ne_of_gt a b key l n = elim (Bool-cases (b =? key)) [
  | inr other ↦ other
  | inl same ↦ let k : b ≡ key = (eq_iff b key).0 same in absurd (cc (ap (λ x. str_lt x a) k, l, n))
]

above_min : (pairs : Pairs) → IsSorted pairs → NotBelow (min_key pairs) pairs
unfolding min_key
above_min [] s = tt
above_min (p ∷ ps) s = (lt_irrefl p.0, s.0)

pub All-split :
    (P : String × CommittedRec → Type 0) (xs ys : Pairs) → All P (xs ++ ys) → All P xs × All P ys
All-split P [] ys h = (tt, h)
All-split P (x ∷ xs) ys h = let rest = All-split P xs ys h.1 in ((h.0, rest.0), rest.1)

module _ (f : RunFormat) (disk : Disk) where
  -- The file of a run is there, sorted, and the run's range is that of its keys.
  pub record IsRun (meta : RunMeta) : Type 0 where
    pub pairs : Pairs
    pub reads : read_run f disk meta.number ≡ some pairs
    pub sorted : IsSorted pairs
    pub range : meta.key_range ≡ (min_key pairs, max_key pairs)

  module _ (T : String → Option CommittedRec) (key : String) where
    pub lookup_run-eq-get :
        (meta : RunMeta) (run : IsRun meta)
        → AllTrue T run.pairs
        → lookup_run f disk key meta ≡ get key run.pairs
    unfolding lookup_run
    lookup_run-eq-get meta run t =
        let lo : meta.key_range.0 ≡ min_key run.pairs = ap (λ p. p.0) run.range in
        let hi : meta.key_range.1 ≡ max_key run.pairs = ap (λ p. p.1) run.range in
        elim (Bool-cases (str_lt key meta.key_range.0)) [
          | inl below ↦
              let b : str_lt key (min_key run.pairs) ≡ true = ap (str_lt key) (sym lo) ∙ below in
              let far =
                All-map _ _
                  (λ (p : String × CommittedRec) (n : str_lt p.0 (min_key run.pairs) ≡ false).
                    ne_of_gt (min_key run.pairs) p.0 key b n)
                  run.pairs (above_min run.pairs run.sorted) in
              rw below (sym (get-none key run.pairs far))
          | inr not_below ↦ elim (Bool-cases (str_lt meta.key_range.1 key)) [
            | inl above ↦
                let b : str_lt (max_key run.pairs) key ≡ true =
                  ap (λ x. str_lt x key) (sym hi) ∙ above in
                let far =
                  All-map _ _
                    (λ (p : String × CommittedRec) (n : str_lt (max_key run.pairs) p.0 ≡ false).
                      ne_of_lt (max_key run.pairs) p.0 key b n)
                    run.pairs (max_key_lem run.pairs run.sorted) in
                rw (not_below, above) (sym (get-none key run.pairs far))
            | inr inside ↦
                rw (not_below, inside, run.reads)
                  (binary_search-eq-get T key run.pairs run.sorted t)
          ]
        ]

    -- Where all pairs agree, the order of the runs does not matter.
    agree :
        (xs ys : Pairs)
        → AllTrue T xs
        → AllTrue T ys
        → or_else (get key ys) (get key xs) ≡ or_else (get key xs) (get key ys)
    agree xs ys s t = elim (Option-cases (get key ys)) [
      | inl no_y ↦ elim (Option-cases (get key xs)) [
        | inl no_x ↦ rw (no_x, no_y) refl
        | inr (r, x) ↦ rw (x, no_y) refl
      ]
      | inr (r, y) ↦ elim (Option-cases (get key xs)) [
        | inl no_x ↦ rw (no_x, y) refl
        | inr (r', x) ↦ rw (x, y) (sym (get-true T key ys t y) ∙ get-true T key xs s x)
      ]
    ]

  abbrev pub Runs : List RunMeta → Type 0
  Runs = All (λ meta. IsRun meta)

  pub read_all-cons :
      (meta : RunMeta) (newer : List RunMeta) (run : IsRun meta) {all : Pairs}
      → read_all f disk (meta ∷ newer) ≡ some all
      → (rest : Pairs) × (read_all f disk newer ≡ some rest) × (run.pairs ++ rest ≡ all)
  unfolding read_all
  read_all-cons meta newer run e = elim (Option-cases (read_all f disk newer)) [
    | inl stuck ↦ absurd (ground (arith, run.reads, stuck, e))
    | inr (rest, later) ↦ (rest, later, some_inj (sym (rw (run.reads, later, read_all) refl) ∙ e))
  ]

  -- The lookup from the newest run back finds what the pairs of all runs have.
  pub lookup_runs-eq-get :
      (T : String → Option CommittedRec) (key : String) (runs : List RunMeta) {all : Pairs}
      → Runs runs
      → read_all f disk runs ≡ some all
      → AllTrue T all
      → lookup_runs f disk key runs ≡ get key all
  unfolding lookup_runs read_all get
  lookup_runs-eq-get T key [] {all} rs e t = subst (λ a. none ≡ get key a) (some_inj e) refl
  lookup_runs-eq-get T key (meta ∷ newer) {all} rs e t =
      let run = rs.0 in
      let (rest, later, whole) = read_all-cons meta newer run e in
      let true_parts = All-split _ run.pairs rest (subst (AllTrue T) (sym whole) t) in
      let here = lookup_run-eq-get T key meta run true_parts.0 in
      let there = lookup_runs-eq-get T key newer rs.1 later true_parts.1 in
      let both = agree T key run.pairs rest true_parts.0 true_parts.1 in
      let joined = get-append key run.pairs rest ∙ sym both in
      subst (λ a. lookup_runs f disk key (meta ∷ newer) ≡ get key a) whole
        (ground (arith, here, there, joined))

-- The number that is next is above those of all runs.
pub next_run_n-above : (runs : List RunMeta) → All (λ meta. meta.number < next_run_n runs) runs
unfolding next_run_n
next_run_n-above [] = tt
next_run_n-above (meta ∷ runs) = (
  omega arith,
  All-map _ _ (λ (m : RunMeta) (b : m.number < next_run_n runs). omega arith) runs
      (next_run_n-above runs),
)

module _ (f : RunFormat) (n : ℕ) (bytes : List ℕ) (disk : Disk) where
  read_run-insert_other : (m : ℕ) → m < n → read_run f (insert n bytes disk) m ≡ read_run f disk m
  unfolding read_run
  read_run-insert_other m b =
      let ne : (n =? m) ≡ false = ground (arith, b) in
      let g : get m (insert n bytes disk) ≡ get m disk = get-insert n m bytes disk ∙ rw ne refl in
      rw (g, read_run) refl

  -- A file of a higher number changes no run.
  pub Runs-insert :
      (runs : List RunMeta)
      → All (λ meta. meta.number < n) runs
      → Runs f disk runs
      → Runs f (insert n bytes disk) runs
  Runs-insert [] b rs = tt
  Runs-insert (meta ∷ runs) b rs =
      let run = rs.0 in
      (
        record {
          pairs = run.pairs;
          reads = read_run-insert_other meta.number b.0 ∙ run.reads;
          sorted = run.sorted;
          range = run.range;
        },
        Runs-insert runs b.1 rs.1,
      )

  pub read_all-insert :
      (runs : List RunMeta)
      → All (λ meta. meta.number < n) runs
      → read_all f (insert n bytes disk) runs ≡ read_all f disk runs
  unfolding read_all
  read_all-insert [] b = refl
  read_all-insert (meta ∷ runs) b =
      ground (arith, read_run-insert_other meta.number b.0, read_all-insert runs b.1)

  pub read_run-insert_self :
      {pairs : Pairs}
      → decode_run f bytes ≡ ok pairs
      → read_run f (insert n bytes disk) n ≡ some pairs
  unfolding read_run
  read_run-insert_self e = rw (get-insert_self n bytes disk, e, read_run) refl
