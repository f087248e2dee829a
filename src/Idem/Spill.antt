-- ===== src/Idem/Spill.antt =====
-- The runs of the index (talea-store-log/src/idem_spill.rs): their files, the lookup in them, the flush
-- of the oldest half of the memory into a new run, and the merge of all the runs into one.
--
-- A `Disk` has the bytes of each run file of the directory under the run's number. A read fails where
-- there is no file. How the writes and the removals go is the argument of type `Attempts`.
-- `serde_json` and `crc32fast` are the operations of a `RunFormat`; the texts of errors, which are only
-- logged, leave out the numbers that they print.
pub mod Files
pub mod Index
pub mod Drain
pub mod Pending
pub mod Flush
pub mod Merge
pub mod Attach
use Prim.Native.String.{◌++◌ as append}
use talea.Prelude.{ℕ, zero, suc, ◌+◌, ◌/◌, ◌≡◌, ◌<◌, String, Bool, true, false, not, ◌||◌}
use talea.Prelude.{Option, none, some, List, [], ◌∷◌, ◌++◌, length, max, ltb, leb, ◌==◌}
use talea.Prelude.{if◌then◌else◌}
use mathlib.Core.List.{reverse}
use talea.Prelude.Eq.{nat_eq, string_eq}
use talea.HashMap.{HashMap, get, insert, remove}
use talea.Result.{Result, ok, err}
use talea.Frame.{to_le_bytes, from_le_bytes}
use talea.Idem.{CommittedRec, RunMeta, TieredIdem}
use talea.Idem.Filter.{Hasher, new_bloom, insert_keys, might_contain}
use talea.Idem.Order.{str_lt, sort_by_key, dedup_by_key, binary_search}

abbrev pub Pairs : Type 0
Pairs = List (String × CommittedRec)

abbrev pub Disk : Type 0
Disk = HashMap ℕ (List ℕ)

-- `serde_json::to_vec` and `from_slice` on pairs, and `crc32fast::hash`.
pub record RunFormat : Type 0 where
  pub to_vec : Pairs → Result String (List ℕ)
  pub from_slice : List ℕ → Result String Pairs
  pub hash : List ℕ → ℕ

-- What they document.
pub record IsRunFormat (f : RunFormat) : Type 0 where
  pub reads_back :
      (pairs : Pairs) (bytes : List ℕ) → f.to_vec pairs ≡ ok bytes → f.from_slice bytes ≡ ok pairs
  pub hash_u32 : (bytes : List ℕ) → f.hash bytes < 4294967296

unfoldable pub encode_run : RunFormat → Pairs → Result String (List ℕ)
encode_run f pairs = elim (f.to_vec pairs) [
  | err e ↦ err (append "run serialize: " e)
  | ok payload ↦ ok (to_le_bytes (f.hash payload) ++ payload)
]

unfoldable pub decode_run : RunFormat → List ℕ → Result String Pairs
decode_run f (a ∷ b ∷ c ∷ d ∷ payload) =
    if from_le_bytes a b c d == f.hash payload
    then elim (f.from_slice payload) [ err e ↦ err (append "run parse: " e) | ok pairs ↦ ok pairs ]
    else err "CRC mismatch"
decode_run f _ = err "run too short"

-- `std::fs::read` and `decode_run`: `none` for either error.
unfoldable pub read_run : RunFormat → Disk → ℕ → Option Pairs
read_run f disk n = elim (get n disk) [
  | none ↦ none
  | some bytes ↦ elim (decode_run f bytes) [ err e ↦ none | ok pairs ↦ some pairs ]
]

-- One round of `lookup_runs`.
unfoldable pub lookup_run : RunFormat → Disk → String → RunMeta → Option CommittedRec
lookup_run f disk key meta =
    if str_lt key meta.key_range.0 || str_lt meta.key_range.1 key
    then none
    else elim (read_run f disk meta.number) [ none ↦ none | some pairs ↦ binary_search key pairs ]

-- `lookup_runs`: the list has the oldest run first, and is searched from its end.
unfoldable pub lookup_runs : RunFormat → Disk → String → List RunMeta → Option CommittedRec
lookup_runs f disk key [] = none
lookup_runs f disk key (meta ∷ newer) = elim (lookup_runs f disk key newer) [
  | some rec ↦ some rec
  | none ↦ lookup_run f disk key meta
]

-- `TieredIdem::get`
unfoldable pub idem_get : RunFormat → Hasher → Disk → String → TieredIdem → Option CommittedRec
idem_get f h disk key t = elim (get key t.hot) [
  | some rec ↦ some rec
  | none ↦ if not (might_contain h key t.bloom) then none else lookup_runs f disk key t.runs
]

-- A write is done; or fails with no file; or leaves the file there, and fails at the sync of its folder.
pub data Write : Type 0 where
  done failed unsynced : Write

pub record Attempts : Type 0 where
  pub write : ℕ → Write
  pub removes : ℕ → Bool

-- `write_run_atomic`, with whether it succeeded.
unfoldable pub write_run_atomic : Attempts → ℕ → List ℕ → Disk → Disk × Bool
write_run_atomic io n bytes disk = elim (io.write n) [
  | done ↦ (insert n bytes disk, true)
  | failed ↦ (disk, false)
  | unsynced ↦ (insert n bytes disk, false)
]

-- `next_run_n`: one more than the greatest number.
unfoldable pub next_run_n : List RunMeta → ℕ
next_run_n [] = 0
next_run_n (meta ∷ runs) = max (meta.number + 1) (next_run_n runs)

-- The key of the first pair, and that of the last; for none, the empty text.
unfoldable pub min_key : Pairs → String
min_key [] = ""
min_key ((key, _) ∷ pairs) = key

unfoldable pub max_key : Pairs → String
max_key [] = ""
max_key ((key, _) ∷ []) = key
max_key (_ ∷ p ∷ pairs) = max_key (p ∷ pairs)

-- The keys in the order of insertion, the memory, and what was taken from it.
pub record Drained : Type 0 where
  pub order : List String
  pub hot : HashMap String CommittedRec
  pub spilled : Pairs

-- The loop of `flush_spill`; the key is dropped from the order also if the memory does not have it.
unfoldable pub drain : ℕ → List String → HashMap String CommittedRec → Drained
drain zero order hot = record { order = order; hot = hot; spilled = [] }
drain (suc n) [] hot = record { order = []; hot = hot; spilled = [] }
drain (suc n) (key ∷ order) hot = elim (get key hot) [
  | none ↦ drain n order hot
  | some rec ↦
      let rest = drain n order (remove key hot) in
      record rest { spilled = (key, rec) ∷ rest.spilled }
]

-- The loops that return the keys to the memory: each goes to the front of the order.
unfoldable pub put_back : Pairs → TieredIdem → TieredIdem
put_back [] t = t
put_back ((key, rec) ∷ pairs) t =
    put_back pairs (record t { order = key ∷ t.order; hot = insert key rec t.hot })

unfoldable pub run_of : ℕ → Pairs → RunMeta
run_of n pairs = record {
  number = n;
  key_range = (min_key pairs, max_key pairs);
  len = length pairs;
}

-- The pairs of all the runs, oldest run first; `none` if one cannot be read.
unfoldable pub read_all : RunFormat → Disk → List RunMeta → Option Pairs
read_all f disk [] = some []
read_all f disk (meta ∷ runs) = elim (read_run f disk meta.number) [
  | none ↦ none
  | some pairs ↦ elim (read_all f disk runs) [ none ↦ none | some rest ↦ some (pairs ++ rest) ]
]

-- A file that cannot be removed stays.
unfoldable pub remove_files : Attempts → List RunMeta → Disk → Disk
remove_files io [] disk = disk
remove_files io (meta ∷ runs) disk =
    remove_files io runs (if io.removes meta.number then remove meta.number disk else disk)

unfoldable pub merged_runs : ℕ → Pairs → List RunMeta
merged_runs n [] = []
merged_runs n (p ∷ pairs) = run_of n (p ∷ pairs) ∷ []

-- `merge_runs` from where the merged pairs are known.
unfoldable pub merge_into :
    RunFormat → Hasher → Attempts → Pairs → TieredIdem → Disk → TieredIdem × Disk
merge_into f h io merged t disk =
    let n = next_run_n t.runs in
    elim (encode_run f merged) [
      | err e ↦ (t, disk)
      | ok bytes ↦
          let written = write_run_atomic io n bytes disk in
          if written.1
          then (
            record t {
              runs = merged_runs n merged;
              bloom = insert_keys h merged (new_bloom (max (length merged) t.cap));
            },
            remove_files io t.runs written.0,
          )
          else (t, written.0)
    ]

unfoldable pub merge_runs : RunFormat → Hasher → Attempts → TieredIdem → Disk → TieredIdem × Disk
merge_runs f h io t disk =
    if leb (length t.runs) 1 then (t, disk) else elim (read_all f disk t.runs) [
      | none ↦ (t, disk)
      | some pairs ↦ merge_into f h io (dedup_by_key (sort_by_key pairs)) t disk
    ]

-- The state once the run is written: the run is registered, and its keys enter the filter.
unfoldable pub spilled_state : Hasher → ℕ → Pairs → TieredIdem → TieredIdem
spilled_state h n spilled t = record t {
  runs = t.runs ++ (run_of n spilled ∷ []);
  bloom = insert_keys h spilled t.bloom;
}

-- `flush_spill` from where the drained pairs are sorted; `t` is the state without them. The two failures
-- return the pairs in different orders.
unfoldable pub write_spill :
    RunFormat → Hasher → Attempts → Pairs → TieredIdem → Disk → TieredIdem × Disk
write_spill f h io [] t disk = (t, disk)
write_spill f h io (p ∷ ps) t disk =
    let spilled = p ∷ ps in
    let n = next_run_n t.runs in
    elim (encode_run f spilled) [
      | err e ↦ (put_back spilled t, disk)
      | ok bytes ↦
          let written = write_run_atomic io n bytes disk in
          let next = spilled_state h n spilled t in
          if written.1
          then (if ltb 8 (length next.runs)
              then merge_runs f h io next written.0
              else (next, written.0))
          else (put_back (reverse spilled) t, written.0)
    ]

unfoldable pub flush_spill : RunFormat → Hasher → Attempts → TieredIdem → Disk → TieredIdem × Disk
flush_spill f h io t disk =
    let d = drain (length t.hot / 2) t.order t.hot in
    write_spill f h io (sort_by_key d.spilled) (record t { order = d.order; hot = d.hot }) disk
