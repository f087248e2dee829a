-- ===== src/Idem/Spill/Merge.antt =====
-- The writes of new run files, and the merge: the merged run answers what all the runs answered.
use talea.Prelude.{ℕ, ◌<◌, ◌≡◌, refl, ◌∙◌, ap, String, true, false, ◌⊎◌}
use talea.Prelude.{inl, inr, some, List, [], ◌∷◌, length, All, max, leb}
use talea.Prelude.{if◌then◌else◌, Bool-cases, append-nil, arith}
use talea.Prelude.Eq.{nat_eq, string_eq, ◌=?◌}
use talea.HashMap.{get, insert, get-insert_self, remove, get-remove}
use talea.Result.{ok, or_else, Result-cases}
use talea.Idem.{RunMeta, TieredIdem}
use talea.Idem.Filter.{Hasher, new_bloom, insert_keys}
use talea.Idem.Filter.Sound.{new_bloom-IsBloom, insert_keys-IsBloom, might_contain-insert_keys}
use talea.Idem.Order.{IsSorted, sort_by_key, dedup_by_key}
use talea.Idem.Order.Laws.{get-sort_by_key, get-dedup_by_key, All-sort_by_key, All-dedup_by_key}
use talea.Idem.Order.Laws.{IsSorted-sort_by_key, IsSorted-dedup_by_key}
use talea.Idem.Order.Search.{AllTrue}
use talea.Idem.Spill.{Pairs, Disk, RunFormat, IsRunFormat, Attempts, Write, done, failed, unsynced}
use talea.Idem.Spill.{encode_run, read_run, read_all, write_run_atomic, next_run_n, run_of}
use talea.Idem.Spill.{remove_files, merged_runs, merge_into, merge_runs}
use talea.Idem.Spill.Files.{decode_run-encode_run, next_run_n-above, Runs-insert}
use talea.Idem.Spill.Files.{read_all-insert}
use talea.Idem.Spill.Index.{Known, IsIndex}
use talea.Idem.Spill.Pending.{IsPending}

pub Write-cases : (w : Write) → (w ≡ done) ⊎ ((w ≡ failed) ⊎ (w ≡ unsynced))
Write-cases done = inl refl
Write-cases failed = inr (inl refl)
Write-cases unsynced = inr (inr refl)

module _ (f : RunFormat) (h : Hasher) (disk : Disk) (known : Known) (t : TieredIdem) where
  -- A file with the next number harms no index.
  IsIndex-insert :
      (bytes : List ℕ)
      → IsIndex f h disk t known
      → IsIndex f h (insert (next_run_n t.runs) bytes disk) t known
  IsIndex-insert bytes i =
      let n = next_run_n t.runs in
      let above = next_run_n-above t.runs in
      record {
        all = i.all;
        readable = read_all-insert f n bytes disk t.runs above ∙ i.readable;
        runs = Runs-insert f n bytes disk t.runs above i.runs;
        runs_true = i.runs_true;
        hot_true = i.hot_true;
        complete = i.complete;
        bloom = i.bloom;
        passes = i.passes;
      }

  IsPending-insert :
      (bytes : List ℕ) (extra : Pairs)
      → IsPending f h disk known t extra
      → IsPending f h (insert (next_run_n t.runs) bytes disk) known t extra
  IsPending-insert bytes extra p =
      let n = next_run_n t.runs in
      let above = next_run_n-above t.runs in
      record {
        all = p.all;
        readable = read_all-insert f n bytes disk t.runs above ∙ p.readable;
        runs = Runs-insert f n bytes disk t.runs above p.runs;
        runs_true = p.runs_true;
        hot_true = p.hot_true;
        extra_true = p.extra_true;
        missing = p.missing;
        bloom = p.bloom;
        passes = p.passes;
      }

  module _ (io : Attempts) (bytes : List ℕ) where
    pub IsIndex-write_run_atomic :
        IsIndex f h disk t known
        → IsIndex f h (write_run_atomic io (next_run_n t.runs) bytes disk).0 t known
    unfolding write_run_atomic
    IsIndex-write_run_atomic i = elim (Write-cases (io.write (next_run_n t.runs))) [
      | inl e ↦ rw (e, write_run_atomic) (IsIndex-insert bytes i)
      | inr (inl e) ↦ rw (e, write_run_atomic) i
      | inr (inr e) ↦ rw (e, write_run_atomic) (IsIndex-insert bytes i)
    ]

    pub IsPending-write_run_atomic :
        (extra : Pairs)
        → IsPending f h disk known t extra
        → IsPending f h (write_run_atomic io (next_run_n t.runs) bytes disk).0 known t extra
    unfolding write_run_atomic
    IsPending-write_run_atomic extra p = elim (Write-cases (io.write (next_run_n t.runs))) [
      | inl e ↦ rw (e, write_run_atomic) (IsPending-insert bytes extra p)
      | inr (inl e) ↦ rw (e, write_run_atomic) p
      | inr (inr e) ↦ rw (e, write_run_atomic) (IsPending-insert bytes extra p)
    ]

-- A write that succeeded left the file.
pub write_run_atomic-true :
    (io : Attempts) (n : ℕ) (bytes : List ℕ) (disk : Disk)
    → (write_run_atomic io n bytes disk).1 ≡ true
    → (write_run_atomic io n bytes disk).0 ≡ insert n bytes disk
unfolding write_run_atomic
write_run_atomic-true io n bytes disk e = elim (Write-cases (io.write n)) [
  | inl w ↦ rw (w, write_run_atomic) refl
  | inr (inl w) ↦ absurd (ground (arith, w, e))
  | inr (inr w) ↦ absurd (ground (arith, w, e))
]

-- The removal of lower numbers leaves a file.
get-remove_files :
    (io : Attempts) (n : ℕ) (runs : List RunMeta) (disk : Disk)
    → All (λ meta. meta.number < n) runs
    → get n (remove_files io runs disk) ≡ get n disk
unfolding remove_files
get-remove_files io n [] disk b = refl
get-remove_files io n (meta ∷ runs) disk b =
    let ne : (meta.number =? n) ≡ false = ground (arith, b.0) in
    let gone = get-remove meta.number n disk ∙ rw ne refl in
    let next = if io.removes meta.number then remove meta.number disk else disk in
    get-remove_files io n runs next b.1 ∙ (elim (Bool-cases (io.removes meta.number)) [
      | inl gone_file ↦ rw gone_file gone
      | inr stays ↦ rw stays refl
    ])

-- What the merged pairs are to the pairs of the runs.
record IsMerge (known : Known) (all merged : Pairs) : Type 0 where
  same : (key : String) → get key merged ≡ get key all
  sorted : IsSorted merged
  holds : AllTrue known merged

dedup_by_key-IsMerge :
    (known : Known) (all : Pairs)
    → AllTrue known all
    → IsMerge known all (dedup_by_key (sort_by_key all))
dedup_by_key-IsMerge known all t = record {
  same = λ key. get-dedup_by_key (sort_by_key all) key ∙ get-sort_by_key all key;
  sorted = IsSorted-dedup_by_key (sort_by_key all) (IsSorted-sort_by_key all);
  holds = All-dedup_by_key _ (sort_by_key all) (All-sort_by_key _ all t);
}

module _ (f : RunFormat) (ok_f : IsRunFormat f) (h : Hasher) (io : Attempts) (known : Known) where
  module _ (disk : Disk) (t : TieredIdem) (i : IsIndex f h disk t known) where
    merged_disk : List ℕ → Disk
    merged_disk bytes = remove_files io t.runs (insert (next_run_n t.runs) bytes disk)

    read_run-merged :
        (merged : Pairs) (bytes : List ℕ)
        → encode_run f merged ≡ ok bytes
        → read_run f (merged_disk bytes) (next_run_n t.runs) ≡ some merged
    unfolding read_run merged_disk
    read_run-merged merged bytes e =
        let n = next_run_n t.runs in
        let g =
          get-remove_files io n t.runs (insert n bytes disk) (next_run_n-above t.runs)
          ∙ get-insert_self n bytes disk in
        rw (g, decode_run-encode_run f ok_f merged bytes e, read_run) refl

    -- The state with the merged run alone.
    merged_state : Pairs → TieredIdem
    merged_state merged = record t {
      runs = merged_runs (next_run_n t.runs) merged;
      bloom = insert_keys h merged (new_bloom (max (length merged) t.cap));
    }

    IsIndex-merged :
        (merged : Pairs) (bytes : List ℕ)
        → IsMerge known i.all merged
        → encode_run f merged ≡ ok bytes
        → IsIndex f h (merged_disk bytes) (merged_state merged) known
    unfolding merged_state merged_runs run_of read_all
    IsIndex-merged [] bytes m e = record {
      all = [];
      readable = refl;
      runs = tt;
      runs_true = tt;
      hot_true = i.hot_true;
      complete = λ key. ap (or_else (get key t.hot)) (m.same key) ∙ i.complete key;
      bloom = insert_keys-IsBloom h [] _ (new_bloom-IsBloom _);
      passes = tt;
    }
    IsIndex-merged (p ∷ ps) bytes m e =
        let reads = read_run-merged (p ∷ ps) bytes e in
        let b = new_bloom-IsBloom (max (length (p ∷ ps)) t.cap) in
        record {
          all = p ∷ ps;
          readable = rw (reads, read_all) (ap some (append-nil (p ∷ ps)));
          runs = (record { pairs = p ∷ ps; reads = reads; sorted = m.sorted; range = refl }, tt);
          runs_true = m.holds;
          hot_true = i.hot_true;
          complete = λ key. ap (or_else (get key t.hot)) (m.same key) ∙ i.complete key;
          bloom = insert_keys-IsBloom h (p ∷ ps) _ b;
          passes = might_contain-insert_keys h (p ∷ ps) _ b;
        }

    merge_into-IsIndex :
        (merged : Pairs)
        → IsMerge known i.all merged
        → IsIndex f h (merge_into f h io merged t disk).1 (merge_into f h io merged t disk).0 known
    unfolding merge_into merged_state merged_disk
    merge_into-IsIndex merged m = elim (Result-cases (encode_run f merged)) [
      | inr (text, e) ↦ rw (e, merge_into) i
      | inl (bytes, e) ↦
          let written = write_run_atomic io (next_run_n t.runs) bytes disk in
          elim (Bool-cases written.1) [
            | inr w ↦ rw (e, merge_into, w) (IsIndex-write_run_atomic f h disk known t io bytes i)
            | inl w ↦
                let file = write_run_atomic-true io (next_run_n t.runs) bytes disk w in
                rw (e, merge_into, w, file) (IsIndex-merged merged bytes m e)
          ]
    ]

    pub merge_runs-IsIndex :
        IsIndex f h (merge_runs f h io t disk).1 (merge_runs f h io t disk).0 known
    unfolding merge_runs
    merge_runs-IsIndex = elim (Bool-cases (leb (length t.runs) 1)) [
      | inl few ↦ rw (few, merge_runs) i
      | inr many ↦
          rw (many, i.readable, merge_runs)
            (merge_into-IsIndex (dedup_by_key (sort_by_key i.all))
              (dedup_by_key-IsMerge known i.all i.runs_true))
    ]
