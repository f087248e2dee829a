-- ===== src/Tests/Flushed.antt =====
-- The theorem on a commit whose key is not in the index, at a book whose index was flushed.
use talea.Prelude.{◌≡◌, refl, none, some}
use talea.Prelude.{List, [], ◌∷◌, get_elem?}
use talea.Prelude.Eq.{string_eq}
use talea.HashMap.{get}
use talea.Idem.{TieredIdem}
use talea.Idem.Filter.{new_bloom, insert_keys, might_contain}
use talea.Idem.Order.{binary_search, str_lt}
use talea.Idem.Spill.{Disk, encode_run}
use talea.Idem.Spill.{decode_run, flush_spill}
use talea.HashMap.{remove}
use talea.Frame.{to_le_bytes}
use talea.Types.{DateTime, debit}
use talea.State.{BookState}
use talea.Writer.Classify.{Job, commit}
use talea.Tests.{two_accounts, transfer}
use talea.Idem.Order.{sort_by_key, insert_sorted}
use talea.Idem.Spill.{write_spill, write_run_atomic, spilled_state, run_of, next_run_n, drain}
use talea.Writer.Classify.{Batch, Staged, classify, start_batch, classify_from, classify_job}
use talea.Writer.Classify.{classify_commit, classify_new, on_verdict, classify_open, accept}
use talea.Writer.Classify.{reply_with}
use talea.Writer.Resolve.{Runs, resolve, bloom_positive, insert_found}
use talea.Writer.Resolve.Tiered.{index_runs, classify-unknown_key}
use talea.Types.{transaction_posted, to_key, is_reserved}
use talea.Result.{unwrap_or}
use talea.State.Validate.{validate, stage, check_accounts, committed_raw, seed, project, check_min}
use talea.State.Validate.{stage_postings, check_projected, post_raw}
use talea.State.Data.{effective}
use talea.I64.{checked_add, checked_sub}
use talea.Prelude.Int.{◌+ℤ◌, ◌-ℤ◌}
use talea.Prelude.Words.{shr, has_bit, one_shl}
use talea.HashMap.{insert, or_insert}
use talea.Idem.{get_hot}
use talea.Idem.Filter.{hash_at, hashes, all_set, bit_at, bloom_insert, set_bits}
use talea.Idem.Spill.{lookup_runs, lookup_run, read_run, min_key, max_key}
use talea.Frame.{from_le_bytes}
use talea.Idem.Order.{search_in}
use talea.Tests.Spill.{numbers_format, numbers_format-IsRunFormat, hasher, two_keys, two_known}
use talea.Tests.Spill.{two_keys-IsIndex, all_go}

-- A book whose index was flushed, and a commit of a key that it does not have.
abbrev with_keys : BookState
with_keys = record two_accounts { idem = two_keys }

abbrev flushed_keys : TieredIdem × Disk
flushed_keys = flush_spill numbers_format hasher all_go two_keys []

abbrev one_job : List (Job × DateTime)
one_job = (commit (transfer 1 "k1" debit 100), 6) ∷ []

abbrev flushed_book : BookState
flushed_book = record with_keys { idem = flushed_keys.0 }

abbrev one_index : Runs
one_index = index_runs numbers_format hasher flushed_keys.1 flushed_keys.0

-- What the writer stages for it.
abbrev one_staged : Staged
one_staged = record {
  job_idx = 0;
  wire = record { seq = 3; at = 6; event = transaction_posted (transfer 1 "k1" debit 100) };
  place = (0, 0);
}

abbrev one_batch : Batch
one_batch =
    unwrap_or
      (classify flushed_book
        (resolve one_index flushed_book (bloom_positive one_index flushed_book one_job) []) 6
        one_job)
      (start_batch flushed_book 6)

one_batch_lem :
    classify flushed_book
      (resolve one_index flushed_book (bloom_positive one_index flushed_book one_job) [])
      6
      one_job
    ≡ some one_batch
unfolding classify classify_from classify_job classify_commit classify_new on_verdict classify_open
    start_batch accept reply_with validate stage get insert or_insert to_key is_reserved get_hot
    check_accounts committed_raw seed project stage_postings check_projected check_min post_raw
    effective checked_add checked_sub ◌+ℤ◌ ◌-ℤ◌ resolve bloom_positive insert_found index_runs
    might_contain hash_at hashes all_set bit_at has_bit shr flush_spill drain sort_by_key
    insert_sorted write_spill encode_run write_run_atomic spilled_state run_of next_run_n remove
    insert_keys bloom_insert set_bits new_bloom one_shl lookup_runs lookup_run read_run decode_run
    binary_search search_in str_lt min_key max_key to_le_bytes from_le_bytes
one_batch_lem = refl

one_staged_first : get_elem? one_batch.staged 0 ≡ some one_staged
unfolding classify classify_from classify_job classify_commit classify_new on_verdict classify_open
    start_batch accept reply_with validate stage get insert or_insert to_key is_reserved get_hot
    check_accounts committed_raw seed project stage_postings check_projected check_min post_raw
    effective checked_add checked_sub ◌+ℤ◌ ◌-ℤ◌ resolve bloom_positive insert_found index_runs
    might_contain hash_at hashes all_set bit_at has_bit shr flush_spill drain sort_by_key
    insert_sorted write_spill encode_run write_run_atomic spilled_state run_of next_run_n remove
    insert_keys bloom_insert set_bits new_bloom one_shl lookup_runs lookup_run read_run decode_run
    binary_search search_in str_lt min_key max_key to_le_bytes from_le_bytes
one_staged_first = refl

classify-unknown_key_example : two_known "k1" ≡ none
classify-unknown_key_example =
    classify-unknown_key numbers_format hasher all_go [] with_keys two_known 6 one_job 0 one_staged
      (transfer 1 "k1" debit 100) numbers_format-IsRunFormat two_keys-IsIndex one_batch_lem
      one_staged_first refl
