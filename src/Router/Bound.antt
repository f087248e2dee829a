-- ===== src/Router/Bound.antt =====
-- A queue never holds more than `queue_depth` jobs, and a job is refused only by a full one.
use talea.Prelude.{◌≤◌, ◌≡◌, ◌⊎◌, String, false}
use talea.Prelude.{some, List, [], ◌∷◌, ◌++◌, length, leb, All}
use talea.Prelude.{if◌then◌else◌}
use talea.Prelude.Eq.{string_eq, ◌=?◌}
use talea.HashMap.{get, insert}
use talea.Result.{Result, ok, err}
use talea.Types.{StoreError}
use talea.Service.Drafts.{SubmitError, queue_full}
use talea.Router.{WriteConfig, Job, Channel, BookMap}

-- No queue is longer than the depth.
abbrev pub AllBounded : WriteConfig → BookMap → Type 0
AllBounded cfg books = All (λ (e : String × Channel). length e.1.queued ≤ cfg.queue_depth) books

abbrev fresh : Channel
fresh = record { queued = []; closed = false }

-- The channel that a job of the book is sent to.
data IsSender (book : String) (books : BookMap) : Channel × BookMap → Type 0 where
  found :
      (c : Channel) → get book books ≡ some c → c.closed ≡ false → IsSender book books (c, books)
  made : IsSender book books (fresh, insert book fresh books)

-- The job is the last of an open channel of its book; `other` is a book whose channel is as it was, if it
-- is another one.
pub record IsQueued (cfg : WriteConfig) (job : Job) (other : String) (books books' : BookMap)
    : Type 0 where
  channel : Channel
  ahead : List Job
  last : channel.queued ≡ ahead ++ (job ∷ [])
  opened : channel.closed ≡ false
  reached :
      get other books' ≡ (if job.transaction.book =? other then some channel else get other books)
  bounded : AllBounded cfg books'

-- The open channel of the book is full.
pub record IsFull (cfg : WriteConfig) (book : String) (books : BookMap) : Type 0 where
  channel : Channel
  there : get book books ≡ some channel
  opened : channel.closed ≡ false
  full : length channel.queued ≡ cfg.queue_depth

abbrev pub IsOutcome :
    WriteConfig → Job → String → BookMap → Result (SubmitError StoreError) BookMap → Type 0
IsOutcome cfg job other books result =
    ((books' : BookMap) × (result ≡ ok books') × IsQueued cfg job other books books')
    ⊎ ((result ≡ err queue_full) × IsFull cfg job.transaction.book books)

-- The send to the channel that was found or made.
abbrev send : WriteConfig → Job → Channel × BookMap → Result (SubmitError StoreError) BookMap
send cfg job (channel, books) =
    if leb cfg.queue_depth (length channel.queued)
    then err queue_full
    else ok (
        insert job.transaction.book (record channel { queued = channel.queued ++ (job ∷ []) })
          books)
