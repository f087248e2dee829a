-- ===== src/Store/Open.antt =====
-- The opening of one book in `open_with` (talea-store-log/src/lib.rs): its newest snapshot, the replay of
-- the log after it, and the attachment of the index. The writer that is started on the result is left out.
pub mod Restart
use talea.Prelude.{ℕ, ◌+◌, false, String, Option, none, some, List, [], ◌∷◌}
use talea.HashMap.{HashMap}
use talea.Result.{Result, ok, err}
use talea.Types.{Seq, AssetDef, StoreError, io, LedgerEvent, transaction_posted}
use talea.Idem.{CommittedRec, TieredIdem}
use talea.Idem.Filter.{Hasher, new_bloom}
use talea.Idem.Spill.{Pairs, Disk, RunFormat, Attempts}
use talea.Idem.Spill.Attach.{attach_dir}
use talea.State.{BookState, FramePos}
use talea.Writer.Classify.{WireEvent}
use talea.Frame.{Format}
use talea.Segment.Scan.{Catalog, scan_with_pos}
use talea.Snapshot.{Folder, SnapFormat, load_latest}
use talea.Store.Reads.{usize_max}
use talea.Store.Replay.{Replayed, replay}

-- `TieredIdem::with_cap`
unfoldable pub with_cap : ℕ → TieredIdem
with_cap cap = record { hot = []; order = []; runs = []; bloom = new_bloom cap; cap = cap }

abbrev pub default_idem_hot_cap : ℕ
default_idem_hot_cap = 1000000

-- `BookState::default`
unfoldable pub default_state : BookState
default_state = record {
  next_seq = 1;
  accounts = [];
  idem = with_cap default_idem_hot_cap;
  txids = [];
  sums = [];
  last_at = none;
  writer_attached = false;
}

-- The state to replay into, and the number to replay from.
unfoldable pub replay_start : ℕ → Option (BookState × Seq) → BookState × Seq
replay_start cap (some (st, seq)) = (record st { idem = record st.idem { cap = cap } }, seq + 1)
replay_start cap none = (record default_state { idem = record default_state.idem { cap = cap } }, 1)

idem_pair : WireEvent → LedgerEvent → Pairs → Pairs
idem_pair wire (transaction_posted tx) rest =
    (tx.idempotency_key, record { txid = tx.id; seq = wire.seq; at = wire.at }) ∷ rest
idem_pair wire _ rest = rest

-- The keys that the replayed events have, for a rebuild of the runs.
unfoldable pub all_idem : List (WireEvent × FramePos) → Pairs
unfolding idem_pair
all_idem [] = []
all_idem ((wire, place) ∷ pairs) = idem_pair wire wire.event (all_idem pairs)

module _ (f : Format) (g : SnapFormat) (rf : RunFormat) (h : Hasher) (io_runs : Attempts) where
  -- The replay from `start`, and the attachment.
  unfoldable pub open_from :
      Catalog
      → Disk
      → HashMap String AssetDef
      → BookState × Seq
      → Result StoreError (Replayed × Disk)
  open_from segments disk registry (st, from) = elim (scan_with_pos f from usize_max segments) [
    | err e ↦ err (io e)
    | ok pairs ↦ elim (replay pairs (record { state = st; registry = registry })) [
      | err e ↦ err e
      | ok r ↦
          let attached = attach_dir rf h io_runs (all_idem pairs) r.state.idem disk in
          ok (record r { state = record r.state { idem = attached.0 } }, attached.1)
    ]
  ]

  unfoldable pub open_book :
      ℕ → Folder → Catalog → Disk → HashMap String AssetDef → Result StoreError (Replayed × Disk)
  unfolding open_from
  open_book idem_hot_cap snaps segments disk registry =
      open_from segments disk registry (replay_start idem_hot_cap (load_latest g snaps))
