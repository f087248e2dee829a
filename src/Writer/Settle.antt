-- ===== src/Writer/Settle.antt =====
-- Phases 5 and 6 of `run_loop`: the staged events are applied in the order of acceptance, once they
-- are durable, and the jobs are answered.
pub mod Progress
pub mod Overlay
pub mod Applies
pub mod Dedup
pub mod Replies
pub mod Answers
pub mod Turn
pub mod Minimum
pub mod Configured
use talea.Prelude.{
  if◌then◌else◌, Bool, true, false, ℕ, ◌+◌, String, Option, none, some, List, [], ◌∷◌, get_elem?,
}
use talea.HashMap.{HashMap}
use talea.Result.{bind_option, unwrap_or}
use talea.Types.{DateTime, Committed, LedgerEvent, StoreError}
use talea.Types.{asset_registered, account_opened, transaction_posted}
use talea.Idem.{CommittedRec}
use talea.State.{BookState, FramePos}
use talea.State.Apply.{try_apply_transaction, apply_account_opened, bump_seq}
use talea.Writer.Classify.{Job, WireEvent, Staged, Reply, Batch, commit, open_account}
use talea.Writer.Classify.{classify}
use talea.Writer.Classify.{dup, dup_in_batch, reject, open_exists_ok, staged_reply}

-- One event, live or on replay; `none` is a balance that overflows.
unfoldable pub apply_event : WireEvent → FramePos → BookState → Option BookState
apply_event wire place st = elim wire.event [
  | transaction_posted tx ↦ try_apply_transaction tx wire.seq wire.at place st
  | account_opened def cfg ↦ some (apply_account_opened def cfg wire.seq wire.at st)
  | asset_registered _ ↦ some (bump_seq wire.seq wire.at st)
]

-- Phase 5, and the replay of `open_with`; the state is given up on `none`.
unfoldable pub apply_staged : List Staged → BookState → Option BookState
apply_staged [] st = some st
apply_staged (s ∷ rest) st =
    bind_option (apply_event s.wire s.place st) λ st'. apply_staged rest st'

-- The write phase gives each staged event the position of its frame.
unfoldable pub placed : (ℕ → FramePos) → ℕ → List Staged → List Staged
placed places i [] = []
placed places i (s ∷ rest) = record s { place = places i } ∷ placed places (i + 1) rest

-- What is sent on the channel of a job. The position of the job is the one of its channel, and its transaction the one of the event.
pub data Answer : Type 0 where
  committed : Committed → Answer
  done : Answer
  failed : StoreError → Answer

abbrev staged_answer : Staged → Answer
staged_answer s = elim s.wire.event [
  | transaction_posted tx ↦ committed (record { txid = tx.id; seq = s.wire.seq; at = s.wire.at })
  | account_opened _ _ ↦ done
  | asset_registered _ ↦ done
]

-- Phase 6 for one reply: the job's position and what it is sent. A slot that is out of range or is
-- no transaction, where the code panics, gives `none`.
unfoldable pub answer : List Staged → Reply → Option (ℕ × Answer)
answer staged (dup idx rec) =
    some (idx, committed (record { txid = rec.txid; seq = rec.seq; at = rec.at }))
answer staged (dup_in_batch idx slot) =
    bind_option (get_elem? staged slot)
      λ s. elim s.wire.event [ transaction_posted _ ↦ some (idx, staged_answer s) | _ ↦ none ]
answer staged (reject idx e) = some (idx, failed e)
answer staged (open_exists_ok idx) = some (idx, done)
answer staged (staged_reply slot) =
    bind_option (get_elem? staged slot) λ s. some (s.job_idx, staged_answer s)

-- The loop of phase 6.
unfoldable pub answers : List Staged → List Reply → Option (List (ℕ × Answer))
answers staged [] = some []
answers staged (r ∷ rs) =
    bind_option (answer staged r) λ a. bind_option (answers staged rs) λ rest. some (a ∷ rest)

-- What a batch comes to: the answers, the snapshots that are asked for and the state, or every job
-- failed and the writer gone.
pub data Outcome : Type 0 where
  served : BookState → List (ℕ × Answer) → List ℕ → Outcome
  killed : Outcome

-- Phases 3 and 4. The positions of the frames come from the disk; `none` is a write, a rotation or a
-- sync that fails. A batch that stages nothing skips them.
unfoldable pub frame_positions :
    (List Staged → Option (ℕ → FramePos)) → List Staged → Option (ℕ → FramePos)
frame_positions write_phase [] = some (λ _. (0, 0))
frame_positions write_phase (s ∷ rest) = write_phase (s ∷ rest)

-- Phases 3 to 6.
unfoldable pub settle : (List Staged → Option (ℕ → FramePos)) → BookState → Batch → Option Outcome
settle write_phase st b = bind_option (frame_positions write_phase b.staged) λ places.
    let staged = placed places 0 b.staged in
    bind_option (apply_staged staged st)
      λ st'. bind_option (answers staged b.replies) λ sent. some (served st' sent b.snap_job_idxs)

-- One turn of `run_loop`; every failure leads to `io_kill_batch`.
unfoldable pub run_batch :
    (List Staged → Option (ℕ → FramePos))
    → BookState
    → HashMap String CommittedRec
    → DateTime
    → List (Job × DateTime)
    → Outcome
run_batch write_phase st disk_resolved now jobs =
    unwrap_or (bind_option (classify st disk_resolved now jobs) (settle write_phase st)) killed
