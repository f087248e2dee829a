-- ===== src/Tests/Router.antt =====
-- The theorems on the router: a committer with three jobs and batches of two, and queues of at most two jobs.
use talea.Prelude.{ℕ, suc, ◌≤◌, ◌≡◌, refl, ap, some, List, [], ◌∷◌, length, All, map, max, arith}
use talea.Result.{Result, ok}
use talea.Types.{Transaction, Committed, StoreError, debit}
use talea.State.PostingIndex.{concat}
use talea.Router.{Job, batches, serve}
use talea.Router.Drain.{serve_total}
use talea.Router.{WriteConfig, BookMap}
use talea.Prelude.{false}
use talea.Tests.{transfer}

abbrev job : ℕ → Job
job n = record { transaction = transfer n "k" debit 1; reply = n }

abbrev three_jobs : List Job
three_jobs = job 4 ∷ job 5 ∷ job 6 ∷ []

abbrev commit_all : List Transaction → List (Result StoreError Committed)
commit_all [] = []
commit_all (tx ∷ txs) = ok (record { txid = tx.id; seq = 1; at = 1 }) ∷ commit_all txs

commit_all-length : (txs : List Transaction) → length (commit_all txs) ≡ length txs
commit_all-length [] = refl
commit_all-length (tx ∷ txs) = ap suc (commit_all-length txs)

serve_total_example :
    (bs : List (List Job)) × (batches 2 3 three_jobs ≡ some bs)
    × (concat bs ≡ three_jobs)
    × All (λ b. length b ≤ max 1 2) bs
    × (map (λ (r : ℕ × Result StoreError Committed). r.0) (serve commit_all bs) ≡ 4 ∷ 5 ∷ 6 ∷ [])
serve_total_example = serve_total commit_all 2 3 three_jobs commit_all-length (omega arith)

abbrev short_queues : WriteConfig
short_queues = record { queue_depth = 2; batch_max = 2 }

-- One book, with one job that waits.
abbrev one_waits : BookMap
one_waits = ("main", record { queued = job 4 ∷ []; closed = false }) ∷ []
