-- ===== src/Tests/Opening.antt =====
-- The theorem on the opening of a book, with a book that has one spilled key and a log that ends before
-- the snapshot.
use talea.Prelude.{◌≡◌, refl, [], ◌∷◌}
use talea.Result.{ok}
use talea.State.{BookState}
use talea.Frame.{decode_frame, decode_payload, from_le_bytes}
use talea.Segment.Scan.{catalog, scan_with_pos, scan, scan_segments, scan_segment, scan_frames}
use talea.Segment.Scan.{start_base, range_from}
use talea.Idem.Spill.{Disk}
use talea.Snapshot.{write_snapshot}
use talea.Store.Reads.{usize_max}
use talea.Store.Replay.{Replayed}
use talea.Store.Open.{open_book}
use talea.Store.Open.Restart.{IsRestarted, open_book-IsRestarted}
use talea.Tests.Reads.{sale_format, sale_log}
use talea.Tests.Spill.{numbers_format, hasher, all_go}
use talea.Tests.Restart.{with_run, one_file, one_known, with_run-IsIndex, one_filled, one_listed}
use talea.Tests.Restart.{some_run}
use talea.Tests.Snapshots.{empty_format, empty_format-IsSnapFormat, empty_book, broken_file}
use talea.Tests.Snapshots.{broken_file-AllBefore, goes}

abbrev spilled_book : BookState
spilled_book = record empty_book { idem = with_run }

no_tail : scan_with_pos sale_format 5 usize_max (catalog sale_log) ≡ ok []
unfolding scan_with_pos scan scan_segments scan_segment scan_frames start_base range_from catalog
    decode_frame decode_payload from_le_bytes
no_tail = refl

open_book-IsRestarted_example :
    (o : Replayed × Disk) × (open_book sale_format empty_format numbers_format hasher all_go 8
        (write_snapshot empty_format all_go spilled_book 4 broken_file).0
        (catalog sale_log)
        one_file
        []
      ≡ ok o)
    × IsRestarted numbers_format hasher spilled_book one_known o.0.state o.1
    × (o.1 ≡ one_file)
open_book-IsRestarted_example =
    open_book-IsRestarted sale_format empty_format numbers_format hasher all_go all_go 8
      spilled_book 4 broken_file (5 ∷ 1 ∷ 7 ∷ []) (catalog sale_log) one_file [] one_known
      with_run-IsIndex empty_format-IsSnapFormat broken_file-AllBefore refl goes no_tail some_run
      one_filled one_listed
