-- ===== src/Idem/Spill/Attach.antt =====
-- `attach_dir` (talea-store-log/src/idem_spill.rs): at open the run files are checked and the filter is
-- rebuilt from them; where one cannot be read, or there is none, the runs are rebuilt from the log. The
-- folder has the run files of the disk, and what the closure gives is the argument `log_pairs`.
pub mod Restart
use talea.Prelude.{ℕ, zero, suc, String, Bool, true, false, not, Option, none, some, List, [], ◌∷◌}
use talea.Prelude.{leb, if◌then◌else◌, map}
use talea.Prelude.Eq.{nat_eq, string_eq}
use talea.HashMap.{get, contains_key, remove, HashMap}
use talea.Result.{ok, err}
use talea.Idem.{CommittedRec, RunMeta, Bloom, TieredIdem}
use talea.Idem.Filter.{Hasher, new_bloom, insert_keys}
use talea.Idem.Order.{sort_by_key}
use talea.Idem.Spill.{
  Pairs, Disk, RunFormat, Attempts, read_run, encode_run, write_run_atomic, run_of,
}
use talea.Idem.Spill.{next_run_n}

unfoldable pub insert_number : ℕ → List ℕ → List ℕ
insert_number n [] = n ∷ []
insert_number n (m ∷ ms) = if leb n m then n ∷ m ∷ ms else m ∷ insert_number n ms

unfoldable pub sort_numbers : List ℕ → List ℕ
unfolding insert_number
sort_numbers [] = []
sort_numbers (n ∷ ns) = insert_number n (sort_numbers ns)

-- The numbers of the run files, in their order.
unfoldable pub run_numbers : Disk → List ℕ
unfolding sort_numbers
run_numbers disk = sort_numbers (map (λ (file : ℕ × List ℕ). file.0) disk)

-- The check of the runs: `none` if one cannot be read; an empty run is passed over.
unfoldable pub check_runs : RunFormat → Disk → List ℕ → Option (List RunMeta)
check_runs f disk [] = some []
check_runs f disk (n ∷ ns) = elim (read_run f disk n) [
  | none ↦ none
  | some [] ↦ check_runs f disk ns
  | some (p ∷ pairs) ↦ elim (check_runs f disk ns) [
    | none ↦ none
    | some metas ↦ some (run_of n (p ∷ pairs) ∷ metas)
  ]
]

-- The pairs of the log whose keys are not in the memory.
unfoldable pub not_hot : HashMap String CommittedRec → Pairs → Pairs
not_hot hot [] = []
not_hot hot ((key, rec) ∷ pairs) =
    if not (contains_key key hot) then (key, rec) ∷ not_hot hot pairs else not_hot hot pairs

unfoldable pub remove_numbers : Attempts → List ℕ → Disk → Disk
remove_numbers io [] disk = disk
remove_numbers io (n ∷ ns) disk =
    remove_numbers io ns (if io.removes n then remove n disk else disk)

-- The rebuilt run, if there are pairs for it and it can be written.
unfoldable pub rebuild : RunFormat → Attempts → Pairs → Disk → List RunMeta × Disk
rebuild f io [] disk = ([], disk)
rebuild f io (p ∷ ps) disk = elim (encode_run f (p ∷ ps)) [
  | err e ↦ ([], disk)
  | ok bytes ↦
      let n = next_run_n [] in
      let written = write_run_atomic io n bytes disk in
      if written.1 then (run_of n (p ∷ ps) ∷ [], written.0) else ([], written.0)
]

-- The filter takes the keys of each run that can be read.
unfoldable pub add_runs : RunFormat → Hasher → Disk → List RunMeta → Bloom → Bloom
add_runs f h disk [] b = b
add_runs f h disk (meta ∷ metas) b = elim (read_run f disk meta.number) [
  | none ↦ add_runs f h disk metas b
  | some pairs ↦ add_runs f h disk metas (insert_keys h pairs b)
]

-- What `attach_dir` settles on: the runs, and the files.
unfoldable pub attached_runs :
    RunFormat
    → Attempts
    → Pairs
    → TieredIdem
    → Disk
    → List ℕ
    → Option (List RunMeta)
    → List RunMeta × Disk
attached_runs f io log_pairs t disk (n ∷ ns) (some metas) = (metas, disk)
attached_runs f io log_pairs t disk numbers checked =
    rebuild f io (sort_by_key (not_hot t.hot log_pairs)) (remove_numbers io numbers disk)

unfoldable pub attach_dir :
    RunFormat → Hasher → Attempts → Pairs → TieredIdem → Disk → TieredIdem × Disk
attach_dir f h io log_pairs t disk =
    let numbers = run_numbers disk in
    let (runs, disk') = attached_runs f io log_pairs t disk numbers (check_runs f disk numbers) in
    (record t { runs = runs; bloom = add_runs f h disk' runs (new_bloom t.cap) }, disk')
