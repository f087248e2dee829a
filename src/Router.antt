-- ===== src/Router.antt =====
-- The write router (talea-service/src/write_router.rs): a queue and a committer for each book. A committer
-- drains what is queued, batch by batch, and the store's answers go to the jobs by position.
--
-- A channel is the list of the jobs that wait in it. In `submit` a committer may reap itself between the
-- lookup of its sender and the send; the list of tests says at which passes it does.
pub mod Drain
pub mod Bound
use talea.Prelude.{ℕ, zero, suc, ◌-◌, ◌≡◌, String, Bool, true, false, Option, none, some, List, []}
use talea.Prelude.{◌∷◌, ◌++◌, length, leb, if◌then◌else◌, map, take, drop}
use talea.Prelude.Eq.{string_eq}
use talea.HashMap.{HashMap, get, insert, remove}
use talea.Result.{Result, ok, err}
use talea.Types.{Transaction, Committed, StoreError}
use talea.Service.Drafts.{SubmitError, queue_full}

-- `WriteConfig`; the time after which an idle committer goes is left out.
pub record WriteConfig : Type 0 where
  pub queue_depth : ℕ
  pub batch_max : ℕ

-- `Default` of `WriteConfig`
abbrev pub default_config : WriteConfig
default_config = record { queue_depth = 256; batch_max = 64 }

-- A job, with the slot that its reply goes to.
pub record Job : Type 0 where
  pub transaction : Transaction
  pub reply : ℕ

-- The channel of a committer.
pub record Channel : Type 0 where
  pub queued : List Job
  pub closed : Bool

abbrev pub BookMap : Type 0
BookMap = HashMap String Channel

-- `sender_for`: a closed channel is replaced by a new one.
unfoldable pub sender_for : String → BookMap → Channel × BookMap
sender_for book books =
    let fresh : Channel = record { queued = []; closed = false } in
    elim (get book books) [
      | none ↦ (fresh, insert book fresh books)
      | some channel ↦ if channel.closed then (fresh, insert book fresh books) else (channel, books)
    ]

-- The first part of `submit`: the job is queued, or refused as the queue is full. Where the committer was
-- reaped, it has left the map, and the loop goes round again.
unfoldable pub enqueue :
    WriteConfig → Job → List Bool → BookMap → Result (SubmitError StoreError) BookMap
unfolding sender_for
enqueue cfg job [] books =
    let book = job.transaction.book in
    let (channel, books') = sender_for book books in
    if leb cfg.queue_depth (length channel.queued)
    then err queue_full
    else ok (insert book (record channel { queued = channel.queued ++ (job ∷ []) }) books')
enqueue cfg job (false ∷ passes) books =
    let book = job.transaction.book in
    let (channel, books') = sender_for book books in
    if leb cfg.queue_depth (length channel.queued)
    then err queue_full
    else ok (insert book (record channel { queued = channel.queued ++ (job ∷ []) }) books')
enqueue cfg job (true ∷ passes) books =
    enqueue cfg job passes (remove job.transaction.book (sender_for job.transaction.book books).1)

-- The loop of `drain_batch`: while the batch is short, the next job is taken if there is one.
unfoldable pub drain_batch : ℕ → List Job → List Job → List Job × List Job
drain_batch batch_max batch [] = (batch, [])
drain_batch batch_max batch (job ∷ queued) = elim (leb batch_max (length batch)) [
  | true ↦ (batch, job ∷ queued)
  | false ↦ drain_batch batch_max (batch ++ (job ∷ [])) queued
]

-- `commit_batch_and_reply`: the answers by slot. A job beyond the answers gets none.
unfoldable pub replies :
    List Job → List (Result StoreError Committed) → List (ℕ × Result StoreError Committed)
replies [] results = []
replies (job ∷ batch) [] = []
replies (job ∷ batch) (result ∷ results) = (job.reply, result) ∷ replies batch results

unfoldable pub commit_batch_and_reply :
    (List Transaction → List (Result StoreError Committed))
    → List Job
    → List (ℕ × Result StoreError Committed)
unfolding replies
commit_batch_and_reply commit_batch batch =
    replies batch (commit_batch (map (λ (j : Job). j.transaction) batch))

-- The batches of `run_committer` over what is queued, until nothing is, on fuel.
unfoldable pub batches : ℕ → ℕ → List Job → Option (List (List Job))
batches batch_max fuel [] = some []
batches batch_max zero (job ∷ queued) = none
batches batch_max (suc fuel) (job ∷ queued) =
    let drained = drain_batch batch_max (job ∷ []) queued in
    elim (batches batch_max fuel drained.1) [ none ↦ none | some rest ↦ some (drained.0 ∷ rest) ]

-- The replies of the batches, one batch after the other.
unfoldable pub serve :
    (List Transaction → List (Result StoreError Committed))
    → List (List Job)
    → List (ℕ × Result StoreError Committed)
unfolding commit_batch_and_reply
serve commit_batch [] = []
serve commit_batch (batch ∷ rest) =
    commit_batch_and_reply commit_batch batch ++ serve commit_batch rest
