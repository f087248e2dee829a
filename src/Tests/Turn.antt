-- ===== src/Tests/Turn.antt =====
-- The theorems on the writer at a concrete batch.
use talea.Prelude.{ℕ, ◌≡◌, refl, none, some, List, [], ◌∷◌, get_elem?, map}
use talea.Prelude.{length, arith, ◌+◌}
use talea.Prelude.Eq.{string_eq}
use talea.Prelude.Int.{◌+ℤ◌, ◌-ℤ◌}
use talea.HashMap.{get, insert, or_insert}
use talea.Result.{unwrap_or}
use talea.Types.{to_key, debit}
use talea.Types.{is_reserved, def_eq, cfg_eq}
use talea.Types.{transaction_posted}
use talea.Idem.{get_hot}
use talea.State.{BookState}
use talea.State.Validate.{validate, stage, check_accounts, committed_raw, seed, project, check_min}
use talea.State.Validate.{stage_postings, check_projected, post_raw}
use talea.State.Data.{effective}
use talea.I64.{checked_add, checked_sub}
use talea.Writer.Classify.{
  start_batch, accept, reply_with, classify_from, classify_job, classify_commit,
}
use talea.Writer.Classify.{classify_new, on_verdict, classify_open}
use talea.Writer.Classify.{Batch, Staged, classify}
use talea.Writer.Settle.{Answer, apply_staged, placed, run_batch, served}
use talea.Writer.Settle.Turn.{run_batch_total}
use talea.Writer.Settle.Minimum.{KeepsMinima, apply_staged-KeepsMinima}
use talea.Writer.Settle.Applies.{classify-Applies}
use talea.Writer.Settle.Overlay.{IsKnown}
use talea.Writer.Settle.Dedup.{classify-fresh, classify-dedup}
use talea.Writer.Classify.Cases.{record_of}
use talea.Writer.Resolve.{Runs, found, resolve, bloom_positive, insert_found}
use talea.Writer.Resolve.Fresh.{classify-new_key}
use talea.Prelude.{if◌then◌else◌, true}
use talea.Prelude.Eq.{◌=?◌}
use talea.Writer.Classify.Sequence.{IsSequenced, classify-IsSequenced}
use talea.State.Apply.Agreement.{Follows}
use text.Mathlib.TextEquality.{eq_iff}
use talea.Tests.{two_accounts, transfer, six_jobs, writes}

run_batch_total_example :
    (b : Batch) × (st' : BookState) × (sent : List (ℕ × Answer)) × (classify two_accounts [] 6
        six_jobs
      ≡ some b)
    × (run_batch writes two_accounts [] 6 six_jobs ≡ served st' sent (3 ∷ []))
    × (map (λ (a : ℕ × Answer). a.0) sent ≡ 0 ∷ 1 ∷ 2 ∷ 4 ∷ 5 ∷ [])
    × (st'.next_seq ≡ 3 + length b.staged)
run_batch_total_example = run_batch_total writes two_accounts [] 6 six_jobs (λ staged. cc)

-- The six jobs, classified.
abbrev six_batch : Batch
six_batch = unwrap_or (classify two_accounts [] 6 six_jobs) (start_batch two_accounts 6)

six_batch_lem : classify two_accounts [] 6 six_jobs ≡ some six_batch
unfolding classify classify_from classify_job classify_commit classify_new on_verdict classify_open
    start_batch accept reply_with validate stage get insert or_insert to_key is_reserved get_hot
    check_accounts committed_raw seed project stage_postings check_projected check_min post_raw
    effective checked_add checked_sub ◌+ℤ◌ ◌-ℤ◌
six_batch_lem = refl

two_accounts-KeepsMinima : KeepsMinima two_accounts.accounts
unfolding get
two_accounts-KeepsMinima k a there =
    ground (arith, eq_iff "main:cash" k, eq_iff "main:sales" k, there)

apply_staged-KeepsMinima_example :
    (st' : BookState) × (apply_staged (placed (λ i. (3, i)) 0 six_batch.staged) two_accounts
      ≡ some st')
    × KeepsMinima st'.accounts
apply_staged-KeepsMinima_example =
    apply_staged-KeepsMinima (λ i. (3, i)) two_accounts [] 6 six_jobs six_batch_lem
      two_accounts-KeepsMinima

classify-Applies_example :
    (st' : BookState) × (apply_staged (placed (λ i. (3, i)) 0 six_batch.staged) two_accounts
      ≡ some st')
    × Follows (committed_raw two_accounts.accounts) six_batch.scratch.raw st'.accounts
    × IsKnown two_accounts.accounts six_batch.scratch.raw
classify-Applies_example = classify-Applies (λ i. (3, i)) two_accounts [] 6 six_jobs six_batch_lem

classify-IsSequenced_example : IsSequenced 3 5 six_batch
classify-IsSequenced_example = classify-IsSequenced two_accounts [] 6 six_jobs six_batch_lem

-- The first event of the batch.
abbrev sale : Staged
sale = record {
  job_idx = 0;
  wire = record { seq = 3; at = 6; event = transaction_posted (transfer 1 "k1" debit 100) };
  place = (0, 0);
}

sale_first : get_elem? six_batch.staged 0 ≡ some sale
unfolding classify classify_from classify_job classify_commit classify_new on_verdict classify_open
    start_batch accept reply_with validate stage get insert or_insert to_key is_reserved get_hot
    check_accounts committed_raw seed project stage_postings check_projected check_min post_raw
    effective checked_add checked_sub ◌+ℤ◌ ◌-ℤ◌ def_eq cfg_eq
sale_first = refl

classify-fresh_example : record_of "k1" two_accounts [] ≡ none
classify-fresh_example =
    classify-fresh two_accounts [] 6 six_jobs 0 sale (transfer 1 "k1" debit 100) six_batch_lem
      sale_first refl

classify-dedup_example : ◌≡◌ {A = ℕ} 0 0
classify-dedup_example =
    classify-dedup two_accounts [] 6 six_jobs 0 0 sale sale (transfer 1 "k1" debit 100)
      (transfer 1 "k1" debit 100) six_batch_lem sale_first refl sale_first refl refl

-- An index that has spilled a run with the key "k9".
abbrev one_run : Runs
one_run = record {
  might_contain = λ key. true;
  lookup = λ key. if key =? "k9" then some (record { txid = 9; seq = 1; at = 2 }) else none;
}

resolved_lem :
    classify two_accounts
      (resolve one_run two_accounts (bloom_positive one_run two_accounts six_jobs) [])
      6
      six_jobs
    ≡ some six_batch
unfolding resolve bloom_positive insert_found get_hot get
resolved_lem = six_batch_lem

classify-new_key_example : found one_run two_accounts "k1" ≡ none
classify-new_key_example =
    classify-new_key one_run two_accounts 6 six_jobs 0 sale (transfer 1 "k1" debit 100)
      (λ key known. refl) resolved_lem sale_first refl
