-- ===== src/Writer/Classify.antt =====
-- Phase 2c of `run_loop`: the jobs of a batch are classified against the committed state and the
-- overlay of the batch. Each job comes with the reading of `ledger_now` that its acceptance takes;
-- `disk_resolved` holds what phases 2a and 2b found in the spilled runs.
pub mod Cases
pub mod Sequence
use Prim.Native.String.{◌++◌ as append}
use talea.Prelude.{ℕ, ◌+◌, max, String, Bool, ◌&&◌, Option, none, some, List, [], ◌∷◌, ◌++◌}
use talea.Prelude.{length, if◌then◌else◌}
use talea.Prelude.Eq.{string_eq}
use talea.HashMap.{HashMap, get, insert}
use talea.Result.{Result, ok, err, bind_option, or_else, unwrap_or}
use talea.Types.{AccountDef, AccountCfg, AssetDef, Transaction, LedgerEvent, StoreError, Seq}
use talea.Types.{DateTime, to_key, def_eq, cfg_eq, already_exists}
use talea.Types.{asset_registered, account_opened, transaction_posted}
use talea.Idem.{CommittedRec, get_hot}
use talea.State.{AccountState, BookState, Scratch, FramePos}
use talea.State.Validate.{validate, stage}

-- The reply channels are the positions of the jobs.
pub data Job : Type 0 where
  commit : Transaction → Job
  open_account : AccountDef → AccountCfg → Job
  register_asset : AssetDef → Job
  snapshot : Job

-- `WireEvent` of frame.rs
pub record WireEvent : Type 0 where
  pub seq : Seq
  pub at : DateTime
  pub event : LedgerEvent

pub record Staged : Type 0 where
  pub job_idx : ℕ
  pub wire : WireEvent
  pub place : FramePos

pub data Reply : Type 0 where
  dup : ℕ → CommittedRec → Reply
  dup_in_batch : ℕ → ℕ → Reply
  reject : ℕ → StoreError → Reply
  open_exists_ok : ℕ → Reply
  staged_reply : ℕ → Reply

-- The variables of the loop.
pub record Batch : Type 0 where
  pub replies : List Reply
  pub staged : List Staged
  pub scratch : Scratch
  pub snap_job_idxs : List ℕ
  pub batch_at : DateTime
  pub seq : Seq

-- The variables before the loop; the default of a time is the epoch.
unfoldable pub start_batch : BookState → DateTime → Batch
start_batch st now = record {
  replies = [];
  staged = [];
  scratch = record { raw = []; idem = [] };
  snap_job_idxs = [];
  batch_at = max now (unwrap_or st.last_at 0);
  seq = st.next_seq;
}

unfoldable pub reply_with : Reply → Batch → Batch
reply_with r b = record b { replies = b.replies ++ (r ∷ []) }

-- An accepted job: its event takes the next sequence number, at a time that does not go back.
unfoldable pub accept : ℕ → DateTime → LedgerEvent → Batch → Batch
accept idx now event b =
    let at = max b.batch_at now in
    record b {
      staged =
          b.staged
          ++ (record {
            job_idx = idx;
            wire = record { seq = b.seq; at = at; event = event };
            place = (0, 0);
          }
              ∷ []);
      replies = b.replies ++ (staged_reply (length b.staged) ∷ []);
      batch_at = at;
      seq = b.seq + 1;
    }

-- The overlay takes the projected balances, and the key of the transaction with its slot.
abbrev pub with_staged : Transaction → Scratch → Batch → Batch
with_staged tx scratch' b = record b {
  scratch = record scratch' { idem = insert tx.idempotency_key (length b.staged) scratch'.idem };
}

abbrev pub with_scratch : Scratch → Batch → Batch
with_scratch scratch b = record b { scratch = scratch }

-- What the verdict of `validate` leads to; `none` is the fatal error of `stage`.
unfoldable pub on_verdict :
    ℕ → DateTime → Transaction → Batch → Result StoreError (Unit {0}) → Scratch → Option Batch
on_verdict idx now tx b (err e) scratch = some (reply_with (reject idx e) (with_scratch scratch b))
on_verdict idx now tx b (ok _) scratch =
    bind_option (stage tx scratch)
      λ scratch'. some (accept idx now (transaction_posted tx) (with_staged tx scratch' b))

-- A commit that is no duplicate.
unfoldable pub classify_new : BookState → ℕ → DateTime → Transaction → Batch → Option Batch
classify_new st idx now tx b =
    let (verdict, scratch) = validate st tx b.scratch in on_verdict idx now tx b verdict scratch

unfoldable pub classify_commit :
    BookState → HashMap String CommittedRec → ℕ → DateTime → Transaction → Batch → Option Batch
classify_commit st disk_resolved idx now tx b =
    let key = tx.idempotency_key in
    elim (or_else (get_hot key st.idem) (get key disk_resolved)) [
      | some rec ↦ some (reply_with (dup idx rec) b)
      | none ↦ elim (get key b.scratch.idem) [
        | some slot ↦ some (reply_with (dup_in_batch idx slot) b)
        | none ↦ classify_new st idx now tx b
      ]
    ]

-- An account that is open is compared; one that is not is accepted.
unfoldable pub classify_open : BookState → ℕ → DateTime → AccountDef → AccountCfg → Batch → Batch
classify_open st idx now def cfg b = elim (get (to_key def.id) st.accounts) [
  | some existing ↦
      if def_eq existing.def def && cfg_eq existing.cfg cfg
      then reply_with (open_exists_ok idx) b
      else reply_with (reject idx (already_exists (append "account " (to_key def.id)))) b
  | none ↦ accept idx now (account_opened def cfg) b
]

-- The body of the loop.
unfoldable pub classify_job :
    BookState → HashMap String CommittedRec → ℕ → DateTime → Job → Batch → Option Batch
classify_job st disk_resolved idx now (commit tx) b = classify_commit st disk_resolved idx now tx b
classify_job st disk_resolved idx now (open_account def cfg) b =
    some (classify_open st idx now def cfg b)
classify_job st disk_resolved idx now (register_asset def) b =
    some (accept idx now (asset_registered def) b)
classify_job st disk_resolved idx now snapshot b =
    some (record b { snap_job_idxs = b.snap_job_idxs ++ (idx ∷ []) })

unfoldable pub classify_from :
    BookState → HashMap String CommittedRec → ℕ → List (Job × DateTime) → Batch → Option Batch
classify_from st disk_resolved idx [] b = some b
classify_from st disk_resolved idx ((job, now) ∷ jobs) b =
    bind_option (classify_job st disk_resolved idx now job b)
      λ b'. classify_from st disk_resolved (idx + 1) jobs b'

-- Phase 2c; `none` is the fatal error, for which the whole batch is dropped.
unfoldable pub classify :
    BookState → HashMap String CommittedRec → DateTime → List (Job × DateTime) → Option Batch
classify st disk_resolved now jobs = classify_from st disk_resolved 0 jobs (start_batch st now)
