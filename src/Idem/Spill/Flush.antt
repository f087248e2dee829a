-- ===== src/Idem/Spill/Flush.antt =====
-- The flush: whatever of it fails, the index stands for the same map after it as before.
use talea.Prelude.{ℕ, ◌/◌, ◌≡◌, refl, sym, ◌∙◌, ap, subst, String, true, inl, inr}
use talea.Prelude.{some, List, [], ◌∷◌, ◌++◌, length, All-append, All-map, ltb}
use talea.Prelude.{Bool-cases, Option-cases, append-nil, append_assoc, arith}
use talea.Prelude.Eq.{nat_eq, string_eq}
use mathlib.Core.List.{reverse}
use talea.HashMap.{get, insert, get-append}
use talea.Result.{ok, some_inj, Result-cases}
use talea.Idem.{CommittedRec, RunMeta, TieredIdem}
use talea.Idem.Filter.{Hasher, might_contain}
use talea.Idem.Filter.Sound.{insert_keys-IsBloom, might_contain-insert_keys}
use talea.Idem.Filter.Sound.{might_contain-insert_keys_old}
use talea.Idem.Order.{IsSorted, sort_by_key}
use talea.Idem.Order.Laws.{IsSorted-sort_by_key}
use talea.Idem.Spill.{Pairs, Disk, RunFormat, IsRunFormat, Attempts, encode_run, read_run, read_all}
use talea.Idem.Spill.{write_run_atomic, next_run_n, run_of, spilled_state}
use talea.Idem.Spill.{write_spill, flush_spill, drain}
use talea.Idem.Spill.Files.{decode_run-encode_run, next_run_n-above, Runs-insert}
use talea.Idem.Spill.Files.{read_all-insert, read_run-insert_self}
use talea.Idem.Spill.Index.{Known, IsIndex}
use talea.Idem.Spill.Drain.{left_none}
use talea.Idem.Spill.Pending.{IsPending, IsPending-IsIndex, drain-IsPending, put_back-IsIndex}
use talea.Idem.Spill.Pending.{reverse-IsPending}
use talea.Idem.Spill.Merge.{IsPending-write_run_atomic, write_run_atomic-true, merge_runs-IsIndex}

module _ (f : RunFormat) (ok_f : IsRunFormat f) (h : Hasher) (io : Attempts) (known : Known) where
  read_all-append_one :
      (disk : Disk) (runs : List RunMeta) (n : ℕ) (ps : Pairs) {all : Pairs}
      → read_all f disk runs ≡ some all
      → read_run f disk n ≡ some ps
      → read_all f disk (runs ++ (run_of n ps ∷ [])) ≡ some (all ++ ps)
  unfolding read_all run_of
  read_all-append_one disk [] n ps {all} e r =
      let nothing : [] ≡ all = some_inj e in
      subst (λ a. read_all f disk (run_of n ps ∷ []) ≡ some (a ++ ps)) nothing
        (rw (r, read_all) (ap some (append-nil ps)))
  read_all-append_one disk (meta ∷ runs) n ps {all} e r =
      elim (Option-cases (read_run f disk meta.number)) [
        | inl stuck ↦ absurd (ground (arith, stuck, e))
        | inr (first, reads) ↦ elim (Option-cases (read_all f disk runs)) [
          | inl stuck ↦ absurd (ground (arith, reads, stuck, e))
          | inr (rest, later) ↦
              let whole : first ++ rest ≡ all =
                some_inj (sym (rw (reads, later, read_all) refl) ∙ e) in
              let ih = read_all-append_one disk runs n ps later r in
              subst (λ a. read_all f disk (meta ∷ (runs ++ (run_of n ps ∷ []))) ≡ some (a ++ ps))
                whole (ground (arith, reads, ih, append_assoc first rest ps))
        ]
      ]

  module _ (disk : Disk) (t : TieredIdem) where
    spilled_state-IsIndex :
        (extra : Pairs) (bytes : List ℕ)
        → IsSorted extra
        → encode_run f extra ≡ ok bytes
        → IsPending f h disk known t extra
        → IsIndex f h
            (insert (next_run_n t.runs) bytes disk)
            (spilled_state h (next_run_n t.runs) extra t)
            known
    unfolding spilled_state run_of
    spilled_state-IsIndex extra bytes s e p =
        let n = next_run_n t.runs in
        let disk' = insert n bytes disk in
        let above = next_run_n-above t.runs in
        let reads =
          read_run-insert_self f n bytes disk (decode_run-encode_run f ok_f extra bytes e) in
        let old = read_all-insert f n bytes disk t.runs above ∙ p.readable in
        IsPending-IsIndex f h disk' known (spilled_state h n extra t) (record {
          all = p.all ++ extra;
          readable = read_all-append_one disk' t.runs n extra old reads;
          runs =
              All-append _ t.runs _ (Runs-insert f n bytes disk t.runs above p.runs)
                (record { pairs = extra; reads = reads; sorted = s; range = refl }, tt);
          runs_true = All-append _ p.all extra p.runs_true p.extra_true;
          hot_true = p.hot_true;
          extra_true = tt;
          missing = λ key r k cold no_run.
              let g = sym (get-append key p.all extra) ∙ no_run in
              let no_old = left_none (get key p.all) (get key extra) g in
              let g' = rw no_old at g in absurd (cc (p.missing key r k cold no_old, g'));
          bloom = insert_keys-IsBloom h extra t.bloom p.bloom;
          passes =
              All-append _ p.all extra
                (All-map _ _
                  (λ (q : String × CommittedRec) (m : might_contain h q.0 t.bloom ≡ true).
                    might_contain-insert_keys_old h q.0 extra t.bloom p.bloom m)
                  p.all p.passes)
                (might_contain-insert_keys h extra t.bloom p.bloom);
        })

    write_spill-IsIndex :
        (extra : Pairs)
        → IsSorted extra
        → IsPending f h disk known t extra
        → IsIndex f h (write_spill f h io extra t disk).1 (write_spill f h io extra t disk).0 known
    unfolding write_spill
    write_spill-IsIndex [] s p = IsPending-IsIndex f h disk known t p
    write_spill-IsIndex (q ∷ qs) s p = elim (Result-cases (encode_run f (q ∷ qs))) [
      | inr (text, e) ↦ rw (e, write_spill) (put_back-IsIndex f h disk known (q ∷ qs) t p)
      | inl (bytes, e) ↦
          let n = next_run_n t.runs in
          let written = write_run_atomic io n bytes disk in
          let next = spilled_state h n (q ∷ qs) t in
          elim (Bool-cases written.1) [
            | inr w ↦
                rw (e, write_spill, w)
                  (put_back-IsIndex f h written.0 known (reverse (q ∷ qs)) t (
                    reverse-IsPending f h written.0 known (q ∷ qs) t
                      (IsPending-write_run_atomic f h disk known t io bytes (q ∷ qs) p)))
            | inl w ↦
                let file = write_run_atomic-true io n bytes disk w in
                let i = spilled_state-IsIndex (q ∷ qs) bytes s e p in
                let i' : IsIndex f h written.0 next known = rw file i in
                elim (Bool-cases (ltb 8 (length next.runs))) [
                  | inr few ↦ rw (e, write_spill, w, few) i'
                  | inl many ↦
                      rw (e, write_spill, w, many)
                        (merge_runs-IsIndex f ok_f h io known written.0 next i')
                ]
          ]
    ]

  -- Let the index stand for a map of keys to commits. Then it stands for the same map after a flush,
  -- with the files that the flush leaves, and so `get` answers the same for every key: if the pairs
  -- cannot be encoded, or the write fails, with or without the file in place, or all goes well and
  -- the runs are merged or not, however that goes. The JSON codec reads back what it wrote.
  pub flush_spill-IsIndex :
      (disk : Disk) (t : TieredIdem)
      → IsIndex f h disk t known
      → IsIndex f h (flush_spill f h io t disk).1 (flush_spill f h io t disk).0 known
  unfolding flush_spill
  flush_spill-IsIndex disk t i =
      let n = length t.hot / 2 in
      let d = drain n t.order t.hot in
      write_spill-IsIndex disk (record t { order = d.order; hot = d.hot }) (sort_by_key d.spilled)
        (IsSorted-sort_by_key d.spilled) (drain-IsPending f h disk known n t i)
