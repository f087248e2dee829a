-- ===== src/Idem/Spill/Attach/Restart.antt =====
-- After a restart the index stands for the map that it stood for before.
use talea.Prelude.{ℕ, ◌≡◌, ◌≢◌, refl, sym, ◌∙◌, ap, subst, String, true}
use talea.Prelude.{some, List, [], ◌∷◌, All, All-map, All-append, map, arith}
use talea.Prelude.{Option-cases, inl, inr}
use talea.Prelude.Eq.{string_eq}
use talea.HashMap.{get}
use talea.Result.{some_inj, or_else}
use talea.Idem.{CommittedRec, RunMeta, Bloom, TieredIdem}
use talea.Idem.Filter.{Hasher, new_bloom, insert_keys, might_contain}
use talea.Idem.Filter.Sound.{IsBloom, new_bloom-IsBloom, insert_keys-IsBloom}
use talea.Idem.Filter.Sound.{might_contain-insert_keys, might_contain-insert_keys_old}
use talea.Idem.Spill.{Pairs, Disk, RunFormat, Attempts, read_run, read_all, run_of}
use talea.Idem.Spill.Files.{Runs, read_all-cons}
use talea.Idem.Spill.Index.{Known, IsIndex}
use talea.Idem.Spill.Attach.{run_numbers, check_runs, add_runs, attached_runs, attach_dir}

numbers-ne-nil : (runs : List RunMeta) → runs ≢ [] → map (λ (m : RunMeta). m.number) runs ≢ []
numbers-ne-nil [] h e = h refl
numbers-ne-nil (meta ∷ runs) h e = cc

module _ (f : RunFormat) (h : Hasher) (disk : Disk) where
  -- Every run has a pair.
  abbrev pub AllFilled : (runs : List RunMeta) → Runs f disk runs → Type 0
  AllFilled [] rs = Unit
  AllFilled (meta ∷ runs) rs = (rs.0.pairs ≢ []) × AllFilled runs rs.1

  record IsChecked (runs metas : List RunMeta) : Type 0 where
    checked : check_runs f disk (map (λ (m : RunMeta). m.number) runs) ≡ some metas
    runs_lem : Runs f disk metas
    same : read_all f disk metas ≡ read_all f disk runs

  check_runs-cons :
      (n : ℕ) (ns : List ℕ) (pairs : Pairs) (metas : List RunMeta)
      → pairs ≢ []
      → read_run f disk n ≡ some pairs
      → check_runs f disk ns ≡ some metas
      → check_runs f disk (n ∷ ns) ≡ some (run_of n pairs ∷ metas)
  unfolding check_runs
  check_runs-cons n ns [] metas filled reads rest = absurd (filled refl)
  check_runs-cons n ns (p ∷ ps) metas filled reads rest = ground (arith, reads, rest)

  attached_runs-some :
      (io : Attempts) (log_pairs : Pairs) (t : TieredIdem) (ns : List ℕ) (metas : List RunMeta)
      → ns ≢ []
      → attached_runs f io log_pairs t disk ns (some metas) ≡ (metas, disk)
  unfolding attached_runs
  attached_runs-some io log_pairs t [] metas h = absurd (h refl)
  attached_runs-some io log_pairs t (n ∷ ns) metas h = refl

  -- The check finds the runs again.
  check_runs-IsChecked :
      (runs : List RunMeta) (rs : Runs f disk runs)
      → AllFilled runs rs
      → (metas : List RunMeta) × IsChecked runs metas
  unfolding check_runs read_all run_of
  check_runs-IsChecked [] rs filled = ([], record { checked = refl; runs_lem = tt; same = refl })
  check_runs-IsChecked (meta ∷ runs) rs filled =
      let run = rs.0 in
      let (metas, c) = check_runs-IsChecked runs rs.1 filled.1 in
      (
        run_of meta.number run.pairs ∷ metas,
        record {
          checked =
              check_runs-cons meta.number (map (λ (m : RunMeta). m.number) runs) run.pairs metas
                filled.0 run.reads c.checked;
          runs_lem = (
            record { pairs = run.pairs; reads = run.reads; sorted = run.sorted; range = refl },
            c.runs_lem,
          );
          same = ground (arith, c.same);
        },
      )

  add_runs-IsBloom :
      (runs : List RunMeta) (b : Bloom) → IsBloom b → IsBloom (add_runs f h disk runs b)
  unfolding add_runs
  add_runs-IsBloom [] b ok_b = ok_b
  add_runs-IsBloom (meta ∷ runs) b ok_b = elim (Option-cases (read_run f disk meta.number)) [
    | inl gone ↦ rw (gone, add_runs) (add_runs-IsBloom runs b ok_b)
    | inr (pairs, reads) ↦
        rw (reads, add_runs)
          (add_runs-IsBloom runs (insert_keys h pairs b) (insert_keys-IsBloom h pairs b ok_b))
  ]

  add_runs-keeps :
      (key : String) (runs : List RunMeta) (b : Bloom)
      → IsBloom b
      → might_contain h key b ≡ true
      → might_contain h key (add_runs f h disk runs b) ≡ true
  unfolding add_runs
  add_runs-keeps key [] b ok_b e = e
  add_runs-keeps key (meta ∷ runs) b ok_b e = elim (Option-cases (read_run f disk meta.number)) [
    | inl gone ↦ rw (gone, add_runs) (add_runs-keeps key runs b ok_b e)
    | inr (pairs, reads) ↦
        rw (reads, add_runs)
          (add_runs-keeps key runs (insert_keys h pairs b) (insert_keys-IsBloom h pairs b ok_b)
            (might_contain-insert_keys_old h key pairs b ok_b e))
  ]

  -- Every key of the runs passes.
  add_runs-passes :
      (runs : List RunMeta) (b : Bloom) {all : Pairs}
      → IsBloom b
      → Runs f disk runs
      → read_all f disk runs ≡ some all
      → All (λ p. might_contain h p.0 (add_runs f h disk runs b) ≡ true) all
  unfolding add_runs read_all
  add_runs-passes [] b {all} ok_b rs e =
      subst (λ a. All (λ p. might_contain h p.0 b ≡ true) a) (some_inj e) tt
  add_runs-passes (meta ∷ runs) b {all} ok_b rs e =
      let run = rs.0 in
      let (rest, later, whole) = read_all-cons f disk meta runs run e in
      let b' = insert_keys h run.pairs b in
      let ok' = insert_keys-IsBloom h run.pairs b ok_b in
      let now =
        All-map _ _
          (λ (p : String × CommittedRec) (m : might_contain h p.0 b' ≡ true).
            add_runs-keeps p.0 runs b' ok' m)
          run.pairs (might_contain-insert_keys h run.pairs b ok_b) in
      rw (run.reads, add_runs)
        (subst (All (λ p. might_contain h p.0 (add_runs f h disk runs b') ≡ true)) whole
          (All-append _ run.pairs rest now (add_runs-passes runs b' ok' rs.1 later)))

  -- Let an index, with the run files as they are, stand for a map of keys to commits; let the folder have the
  -- files of its runs, of which there is one at least and each has a pair, and no other run file. Then
  -- the index that has the memory of this one, whatever runs and filter it has, stands for the same map
  -- once it is attached to the folder, and the attachment leaves the files as they are.
  pub attach_dir-IsIndex :
      (io : Attempts) (log_pairs : Pairs) (t loaded : TieredIdem) (known : Known)
      (i : IsIndex f h disk t known)
      → t.runs ≢ []
      → AllFilled t.runs i.runs
      → run_numbers disk ≡ map (λ (m : RunMeta). m.number) t.runs
      → loaded.hot ≡ t.hot
      → (let attached = attach_dir f h io log_pairs loaded disk in
          IsIndex f h attached.1 attached.0 known × (attached.1 ≡ disk))
  unfolding attach_dir attached_runs
  attach_dir-IsIndex io log_pairs t loaded known i some_run filled listed same_hot =
      let (metas, c) = check_runs-IsChecked t.runs i.runs filled in
      let some_number = subst (λ ns. ns ≢ []) (sym listed) (numbers-ne-nil t.runs some_run) in
      let checked = ap (check_runs f disk) listed ∙ c.checked in
      let e =
        ap (attached_runs f io log_pairs loaded disk (run_numbers disk)) checked
        ∙ attached_runs-some io log_pairs loaded (run_numbers disk) metas some_number in
      let bloom = new_bloom-IsBloom loaded.cap in
      let readable = c.same ∙ i.readable in
      subst
        (λ (x : List RunMeta × Disk).
          IsIndex f h x.1
            (record loaded { runs = x.0; bloom = add_runs f h x.1 x.0 (new_bloom loaded.cap) })
            known
          × (x.1 ≡ disk))
        (sym e)
        (
          record {
            all = i.all;
            readable = readable;
            runs = c.runs_lem;
            runs_true = i.runs_true;
            hot_true = λ key r there. i.hot_true key r (ap (λ m. get key m) (sym same_hot) ∙ there);
            complete =
                λ key. ap (λ m. or_else (get key m) (get key i.all)) same_hot ∙ i.complete key;
            bloom = add_runs-IsBloom metas (new_bloom loaded.cap) bloom;
            passes = add_runs-passes metas (new_bloom loaded.cap) bloom c.runs_lem readable;
          },
          refl,
        )
