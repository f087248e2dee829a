-- ===== src/Store/Open/Restart.antt =====
-- A book that is opened from the snapshot of its state has that state.
use talea.Prelude.{ℕ, ◌+◌, ◌≡◌, ◌≢◌, refl, ◌∙◌, ap, String, some, List, [], map}
use talea.HashMap.{HashMap}
use talea.Result.{ok}
use talea.Types.{Seq, AssetDef}
use talea.Idem.{RunMeta}
use talea.Idem.Filter.{Hasher}
use talea.Idem.Spill.{Disk, RunFormat, Attempts, failed}
use talea.Idem.Spill.Index.{Known, IsIndex}
use talea.Idem.Spill.Attach.{run_numbers, attach_dir}
use talea.Idem.Spill.Attach.Restart.{AllFilled, attach_dir-IsIndex}
use talea.State.{BookState}
use talea.Frame.{Format}
use talea.Segment.Scan.{Catalog, scan_with_pos}
use talea.Snapshot.{Folder, SnapFormat, IsSnapFormat, persisted, persisted_accounts, write_snapshot}
use talea.Snapshot.Latest.{AllBefore, load_latest-write_snapshot}
use talea.Store.Reads.{usize_max}
use talea.Store.Replay.{Replayed, replay}
use talea.Store.Open.{all_idem, replay_start, open_from, open_book}

-- What a restart keeps of a state, with the files of the index.
pub record IsRestarted (rf : RunFormat) (h : Hasher) (st : BookState) (known : Known)
    (r : BookState) (disk : Disk) : Type 0 where
  next_seq : r.next_seq ≡ st.next_seq
  accounts : r.accounts ≡ persisted_accounts st.accounts
  sums : r.sums ≡ st.sums
  txids : r.txids ≡ st.txids
  index : IsIndex rf h disk r.idem known

module _ (f : Format) (g : SnapFormat) (rf : RunFormat) (h : Hasher) (io_runs : Attempts) where
  -- Let the snapshot of a state be written, to a folder with older ones, not failing before its rename,
  -- by a codec that reads back what it wrote; let the log have no event after it. Let the index of the
  -- state stand for a map of keys to commits, its runs be the files of the folder, one at least, and each
  -- have a pair. Then the book opens, with the next number, the accounts, the sums and the places of the
  -- transactions of that state, an index that stands for the same map, and the files as they were.
  pub open_book-IsRestarted :
      (io : Attempts) (cap : ℕ) (st : BookState) (last_seq : Seq) (snaps : Folder)
      (payload : List ℕ) (segments : Catalog) (disk : Disk) (registry : HashMap String AssetDef)
      (known : Known) (i : IsIndex rf h disk st.idem known)
      → IsSnapFormat g
      → AllBefore last_seq snaps
      → g.to_vec st ≡ ok payload
      → io.write last_seq ≢ failed
      → scan_with_pos f (last_seq + 1) usize_max segments ≡ ok []
      → st.idem.runs ≢ []
      → AllFilled rf h disk st.idem.runs i.runs
      → run_numbers disk ≡ map (λ (m : RunMeta). m.number) st.idem.runs
      → (o : Replayed × Disk) × (open_book f g rf h io_runs cap
            (write_snapshot g io st last_seq snaps).0
            segments
            disk
            registry
          ≡ ok o)
        × IsRestarted rf h st known o.0.state o.1
        × (o.1 ≡ disk)
  unfolding open_book open_from replay_start replay all_idem persisted
  open_book-IsRestarted io cap st last_seq snaps payload segments disk registry known i ok_g older
        written goes tail some_run filled listed =
      let loaded =
        load_latest-write_snapshot g io st last_seq snaps payload ok_g older written goes in
      let start = replay_start cap (some (persisted st, last_seq)) in
      let attached =
        attach_dir-IsIndex rf h disk io_runs [] st.idem start.0.idem known i some_run filled listed
          refl in
      let o = attach_dir rf h io_runs [] start.0.idem disk in
      (
        (record { state = record start.0 { idem = o.0 }; registry = registry }, o.1),
        ap (λ s. open_from f g rf h io_runs segments disk registry (replay_start cap s)) loaded
            ∙ rw (tail, open_from) refl,
        record { next_seq = refl; accounts = refl; sums = refl; txids = refl; index = attached.0 },
        attached.1,
      )
