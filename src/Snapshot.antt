-- ===== src/Snapshot.antt =====
-- The snapshots of a book (talea-store-log/src/snapshot.rs): `write_snapshot`, `load_latest`, `prune_old`.
--
-- The folder has the bytes of each snapshot file under its sequence number. A file that is there can be
-- read, and a folder can be listed; how the writes and the removals go is the argument of type `Attempts`.
-- `serde_json` and `crc32fast` are the operations of a `SnapFormat`. The texts of errors leave out what
-- they print.
pub mod Latest
use Prim.Native.String.{◌++◌ as append}
use talea.Prelude.{ℕ, ◌≡◌, ◌<◌, String, Bool, true, false, Option, none, some, List, [], ◌∷◌, ◌++◌}
use talea.Prelude.{leb, ◌==◌, if◌then◌else◌, map, drop}
use talea.Prelude.Eq.{nat_eq}
use talea.HashMap.{HashMap, get, insert, remove}
use talea.Result.{Result, ok, err}
use talea.Types.{Seq}
use talea.Frame.{to_le_bytes, from_le_bytes}
use talea.Idem.Filter.{new_bloom}
use talea.Idem.Spill.{Attempts, done, failed, unsynced}
use talea.State.Data.{BookState, AccountState}
use talea.State.PostingIndex.{serialize, deserialize}

abbrev pub Folder : Type 0
Folder = HashMap Seq (List ℕ)

-- What the derived serialization keeps of an account: the posting index is written flat.
unfoldable pub persisted_accounts : HashMap String AccountState → HashMap String AccountState
persisted_accounts [] = []
persisted_accounts ((key, acct) ∷ accounts) =
    (key, record acct { postings = deserialize (serialize acct.postings) })
    ∷ persisted_accounts accounts

-- What the derived serialization keeps of a state: the runs and the filter of the index are skipped, and
-- so is whether a writer is attached; each comes back as its default.
unfoldable pub persisted : BookState → BookState
persisted st = record st {
  accounts = persisted_accounts st.accounts;
  idem = record st.idem { runs = []; bloom = new_bloom 1 };
  writer_attached = false;
}

-- `serde_json::to_vec` and `from_slice` on states, and `crc32fast::hash`.
pub record SnapFormat : Type 0 where
  pub to_vec : BookState → Result String (List ℕ)
  pub from_slice : List ℕ → Result String BookState
  pub hash : List ℕ → ℕ

-- What they document.
pub record IsSnapFormat (f : SnapFormat) : Type 0 where
  pub reads_back :
      (st : BookState) (bytes : List ℕ)
      → f.to_vec st ≡ ok bytes
      → f.from_slice bytes ≡ ok (persisted st)
  pub hash_u32 : (bytes : List ℕ) → f.hash bytes < 4294967296

-- `try_load_snapshot`, from the bytes of the file
unfoldable pub try_load_snapshot : SnapFormat → List ℕ → Result String BookState
try_load_snapshot f (a ∷ b ∷ c ∷ d ∷ payload) =
    if from_le_bytes a b c d == f.hash payload
    then elim (f.from_slice payload) [ err e ↦ err (append "JSON parse: " e) | ok st ↦ ok st ]
    else err "CRC mismatch"
try_load_snapshot f _ = err "file too short"

-- `sort_by_key` with the numbers reversed
unfoldable pub insert_newest : Seq → List Seq → List Seq
insert_newest n [] = n ∷ []
insert_newest n (m ∷ ms) = if leb m n then n ∷ m ∷ ms else m ∷ insert_newest n ms

unfoldable pub newest_first : List Seq → List Seq
newest_first [] = []
newest_first (n ∷ ns) = insert_newest n (newest_first ns)

unfoldable pub snap_seqs : Folder → List Seq
snap_seqs folder = newest_first (map (λ (file : Seq × List ℕ). file.0) folder)

-- The loop of `load_latest`: a snapshot that is not valid is passed over.
unfoldable pub load_first : SnapFormat → Folder → List Seq → Option (BookState × Seq)
load_first f folder [] = none
load_first f folder (seq ∷ seqs) = elim (get seq folder) [
  | none ↦ load_first f folder seqs
  | some bytes ↦ elim (try_load_snapshot f bytes) [
    | ok st ↦ some (st, seq)
    | err e ↦ load_first f folder seqs
  ]
]

unfoldable pub load_latest : SnapFormat → Folder → Option (BookState × Seq)
load_latest f folder = load_first f folder (snap_seqs folder)

-- A file that cannot be removed stays.
unfoldable pub remove_snaps : Attempts → List Seq → Folder → Folder
remove_snaps io [] folder = folder
remove_snaps io (seq ∷ seqs) folder =
    remove_snaps io seqs (if io.removes seq then remove seq folder else folder)

unfoldable pub prune_old : Attempts → Folder → Folder
prune_old io folder = remove_snaps io (drop 2 (snap_seqs folder)) folder

-- `write_snapshot`, with whether it succeeded
unfoldable pub write_snapshot : SnapFormat → Attempts → BookState → Seq → Folder → Folder × Bool
write_snapshot f io st last_seq folder = elim (f.to_vec st) [
  | err e ↦ (folder, false)
  | ok payload ↦
      let bytes = to_le_bytes (f.hash payload) ++ payload in
      elim (io.write last_seq) [
        | done ↦ (prune_old io (insert last_seq bytes folder), true)
        | failed ↦ (folder, false)
        | unsynced ↦ (insert last_seq bytes folder, false)
      ]
]
