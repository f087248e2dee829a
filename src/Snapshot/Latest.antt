-- ===== src/Snapshot/Latest.antt =====
-- After a snapshot is written it is the one that is loaded.
use talea.Prelude.{ℕ, ◌<◌, ◌≤◌, ◌≡◌, ◌≢◌, refl, sym, ◌∙◌, ap, subst, false}
use talea.Prelude.{some, List, [], ◌∷◌, ◌++◌, All, All-map, map, arith, drop}
use talea.Prelude.{leb, ◌==◌, Bool-cases, inl, inr, ==_iff}
use talea.Prelude.Eq.{nat_eq}
use talea.HashMap.{get, insert, remove, get-insert_self, get-remove}
use talea.Result.{ok}
use talea.Types.{Seq}
use talea.Frame.{to_le_bytes}
use talea.Frame.RoundTrip.{le_bytes_lem}
use talea.Idem.Spill.{Attempts, failed}
use talea.Idem.Spill.Merge.{Write-cases}
use talea.State.Data.{BookState}
use talea.Snapshot.{Folder, SnapFormat, IsSnapFormat, persisted, try_load_snapshot, insert_newest}
use talea.Snapshot.{newest_first, snap_seqs, load_first, load_latest, remove_snaps, prune_old}
use talea.Snapshot.{write_snapshot}

abbrev seqs_of : Folder → List Seq
seqs_of folder = map (λ (file : Seq × List ℕ). file.0) folder

-- Every snapshot of the folder is older.
abbrev pub AllBefore : Seq → Folder → Type 0
AllBefore s folder = All (λ n. n < s) (seqs_of folder)

insert_newest-All :
    (P : Seq → Type 0) (n : Seq) (ns : List Seq) → P n → All P ns → All P (insert_newest n ns)
unfolding insert_newest
insert_newest-All P n [] h hs = (h, tt)
insert_newest-All P n (m ∷ ms) h hs = elim (Bool-cases (leb m n)) [
  | inl here ↦ rw here (h, hs)
  | inr later ↦ rw later (hs.0, insert_newest-All P n ms h hs.1)
]

newest_first-All : (P : Seq → Type 0) (ns : List Seq) → All P ns → All P (newest_first ns)
unfolding newest_first
newest_first-All P [] hs = tt
newest_first-All P (n ∷ ns) hs =
    insert_newest-All P n (newest_first ns) hs.0 (newest_first-All P ns hs.1)

insert_newest-top :
    (s n : Seq) (ns : List Seq) → n < s → insert_newest n (s ∷ ns) ≡ s ∷ insert_newest n ns
unfolding insert_newest
insert_newest-top s n ns h = ground arith

insert_newest-greatest :
    (s : Seq) (ns : List Seq) → All (λ n. n ≤ s) ns → insert_newest s ns ≡ s ∷ ns
unfolding insert_newest
insert_newest-greatest s [] hs = refl
insert_newest-greatest s (n ∷ ns) hs = let h = hs.0 in ground arith

-- A file that is newer than the others comes first, and the others after it.
newest_first-insert :
    (s : Seq) (bytes : List ℕ) (folder : Folder)
    → AllBefore s folder
    → newest_first (seqs_of (insert s bytes folder)) ≡ s ∷ newest_first (seqs_of folder)
unfolding newest_first insert insert_newest
newest_first-insert s bytes [] older = refl
newest_first-insert s bytes ((n, old) ∷ folder) older =
    let h = older.0 in
    let other : (n == s) ≡ false = ground arith in
    rw (other, newest_first-insert s bytes folder older.1)
      (insert_newest-top s n (newest_first (seqs_of folder)) h)

-- The greatest of the files comes first.
newest_first-greatest :
    (s : Seq) (folder : Folder) {bytes : List ℕ}
    → All (λ n. n ≤ s) (seqs_of folder)
    → get s folder ≡ some bytes
    → (rest : List Seq) × (newest_first (seqs_of folder) ≡ s ∷ rest)
unfolding newest_first get
newest_first-greatest s [] most there = absurd (cc there)
newest_first-greatest s ((n, old) ∷ folder) most there = elim (Bool-cases (n == s)) [
  | inl same ↦
      let k : n ≡ s = (==_iff n s).0 same in
      let below = newest_first-All (λ m. m ≤ s) (seqs_of folder) most.1 in
      (
        newest_first (seqs_of folder),
        ap (λ m. insert_newest m (newest_first (seqs_of folder))) k
            ∙ insert_newest-greatest s (newest_first (seqs_of folder)) below,
      )
  | inr other ↦
      let later = rw other at there in
      let h = most.0 in
      let less : n < s = ground arith in
      let (rest, e) = newest_first-greatest s folder most.1 later in
      (insert_newest n rest, rw e (insert_newest-top s n rest less))
]

remove-All :
    (P : Seq → Type 0) (s : Seq) (folder : Folder)
    → All P (seqs_of folder)
    → All P (seqs_of (remove s folder))
unfolding remove
remove-All P s [] h = tt
remove-All P s ((n, old) ∷ folder) h = elim (Bool-cases (n == s)) [
  | inl same ↦ rw same (remove-All P s folder h.1)
  | inr other ↦ rw other (h.0, remove-All P s folder h.1)
]

insert-All :
    (P : Seq → Type 0) (s : Seq) (bytes : List ℕ) (folder : Folder)
    → P s
    → All P (seqs_of folder)
    → All P (seqs_of (insert s bytes folder))
unfolding insert
insert-All P s bytes [] h hs = (h, tt)
insert-All P s bytes ((n, old) ∷ folder) h hs = elim (Bool-cases (n == s)) [
  | inl same ↦ rw same (h, hs.1)
  | inr other ↦ rw other (hs.0, insert-All P s bytes folder h hs.1)
]

remove_snaps-All :
    (P : Seq → Type 0) (io : Attempts) (ns : List Seq) (folder : Folder)
    → All P (seqs_of folder)
    → All P (seqs_of (remove_snaps io ns folder))
unfolding remove_snaps
remove_snaps-All P io [] folder h = h
remove_snaps-All P io (n ∷ ns) folder h = elim (Bool-cases (io.removes n)) [
  | inl gone ↦ rw gone (remove_snaps-All P io ns (remove n folder) (remove-All P n folder h))
  | inr stays ↦ rw stays (remove_snaps-All P io ns folder h)
]

remove_snaps-get :
    (s : Seq) (io : Attempts) (ns : List Seq) (folder : Folder)
    → All (λ n. n < s) ns
    → get s (remove_snaps io ns folder) ≡ get s folder
unfolding remove_snaps
remove_snaps-get s io [] folder h = refl
remove_snaps-get s io (n ∷ ns) folder h =
    let less = h.0 in
    let other : (n == s) ≡ false = ground arith in
    elim (Bool-cases (io.removes n)) [
      | inl gone ↦
          rw gone
            (remove_snaps-get s io ns (remove n folder) h.1 ∙ get-remove n s folder ∙ rw other refl)
      | inr stays ↦ rw stays (remove_snaps-get s io ns folder h.1)
    ]

All-drop_one : (P : Seq → Type 0) (ns : List Seq) → All P ns → All P (drop 1 ns)
All-drop_one P [] h = tt
All-drop_one P (n ∷ ns) h = h.1

module _ (f : SnapFormat) where
  -- The greatest of the files is loaded, if it is valid.
  load_latest-greatest :
      (s : Seq) (folder : Folder) {bytes : List ℕ} {st : BookState}
      → All (λ n. n ≤ s) (seqs_of folder)
      → get s folder ≡ some bytes
      → try_load_snapshot f bytes ≡ ok st
      → load_latest f folder ≡ some (st, s)
  unfolding load_latest load_first snap_seqs
  load_latest-greatest s folder {bytes} {st} most there valid =
      let (rest, e) = newest_first-greatest s folder most there in
      ap (load_first f folder) e ∙ rw (there, valid, load_first) refl

  -- Pruning keeps a file that is newer than the others.
  prune_old-load_latest :
      (io : Attempts) (s : Seq) (bytes : List ℕ) (folder : Folder) {st : BookState}
      → AllBefore s folder
      → try_load_snapshot f bytes ≡ ok st
      → load_latest f (prune_old io (insert s bytes folder)) ≡ some (st, s)
  unfolding prune_old snap_seqs
  prune_old-load_latest io s bytes folder older valid =
      let all = insert s bytes folder in
      let gone = drop 2 (newest_first (seqs_of all)) in
      let most =
        insert-All (λ n. n ≤ s) s bytes folder (omega arith)
          (All-map _ _ (λ (n : Seq) (h : n < s). omega arith) (seqs_of folder) older) in
      let gone_older =
        subst (λ ns. All (λ n. n < s) (drop 2 ns)) (sym (newest_first-insert s bytes folder older))
          (All-drop_one (λ n. n < s) (newest_first (seqs_of folder))
            (newest_first-All (λ n. n < s) (seqs_of folder) older)) in
      load_latest-greatest s (remove_snaps io gone all)
        (remove_snaps-All (λ n. n ≤ s) io gone all most)
        (remove_snaps-get s io gone all gone_older ∙ get-insert_self s bytes folder) valid

  try_load_snapshot-written :
      (st : BookState) {payload : List ℕ}
      → IsSnapFormat f
      → f.to_vec st ≡ ok payload
      → try_load_snapshot f (to_le_bytes (f.hash payload) ++ payload) ≡ ok (persisted st)
  unfolding try_load_snapshot to_le_bytes
  try_load_snapshot-written st {payload} h written =
      let number = le_bytes_lem (f.hash payload) (h.hash_u32 payload) in
      let checked = (==_iff (f.hash payload) (f.hash payload)).1 refl in
      rw (number, checked, h.reads_back st payload written) refl

  -- Let every snapshot of the folder be older than the one that is written, let the JSON codec read back
  -- what it wrote, with a checksum that is a `u32`, and let it write the state. If the write of the file
  -- does not fail before its rename, then the snapshot that is loaded next is the new one, also where the
  -- sync of the folder failed: the state without what the serialization skips, with its sequence number.
  pub load_latest-write_snapshot :
      (io : Attempts) (st : BookState) (last_seq : Seq) (folder : Folder) (payload : List ℕ)
      → IsSnapFormat f
      → AllBefore last_seq folder
      → f.to_vec st ≡ ok payload
      → io.write last_seq ≢ failed
      → load_latest f (write_snapshot f io st last_seq folder).0 ≡ some (persisted st, last_seq)
  unfolding write_snapshot
  load_latest-write_snapshot io st last_seq folder payload h older written goes =
      let bytes = to_le_bytes (f.hash payload) ++ payload in
      let valid = try_load_snapshot-written st h written in
      let most =
        insert-All (λ n. n ≤ last_seq) last_seq bytes folder (omega arith)
          (All-map _ _ (λ (n : Seq) (b : n < last_seq). omega arith) (seqs_of folder) older) in
      elim (Write-cases (io.write last_seq)) [
        | inl whole ↦
            rw (written, whole, write_snapshot)
              (prune_old-load_latest io last_seq bytes folder older valid)
        | inr (inl fails) ↦ absurd (goes fails)
        | inr (inr late) ↦
            rw (written, late, write_snapshot)
              (load_latest-greatest last_seq (insert last_seq bytes folder) most
                (get-insert_self last_seq bytes folder) valid)
      ]
