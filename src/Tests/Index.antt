-- ===== src/Tests/Index.antt =====
-- The theorems on the posting index at a concrete index.
use talea.Prelude.{ℕ, ◌≡◌, [], ◌∷◌, drop, leb, arith}
use talea.Prelude.Lists.{replicate, length-replicate}
use talea.Prelude.Int.{pos}
use talea.Types.{debit}
use talea.State.{PostingEntry}
use talea.State.Data.{PostingIndex}
use talea.State.PostingIndex.{chunk_len, iter_from, serialize, deserialize}
use talea.State.PostingIndex.{partition_point, partition_point_at, partition_point_seq}
use talea.State.PostingIndex.Laws.{IsChunked}
use talea.State.PostingIndex.Laws.{iter_from-serialize}
use talea.State.PostingIndex.Search.{IsAscending, partition_point_at-serialize}
use talea.State.PostingIndex.Search.{partition_point_seq-serialize}
use talea.State.PostingIndex.RoundTrip.{deserialize-serialize}

abbrev entry : ℕ → PostingEntry
entry n = record { seq = n; at = n; txid = n; minor = pos 1; direction = debit; raw_after = pos n }

-- A sealed chunk and an open tail.
abbrev long : PostingIndex
long = record { sealed = replicate chunk_len (entry 1) ∷ []; tail = entry 2 ∷ [] }

long-IsChunked : IsChunked long
long-IsChunked = record {
  full = (length-replicate chunk_len (entry 1), tt);
  open_tail = omega arith;
}

iter_from-serialize_example : iter_from long 7 ≡ drop 7 (serialize long)
iter_from-serialize_example = iter_from-serialize long 7 long-IsChunked

deserialize-serialize_example : deserialize (serialize long) ≡ long
deserialize-serialize_example = deserialize-serialize long long-IsChunked

-- A short history.
abbrev short : PostingIndex
short = record { sealed = []; tail = entry 2 ∷ entry 4 ∷ entry 9 ∷ [] }

short-IsChunked : IsChunked short
short-IsChunked = record { full = tt; open_tail = omega arith }

short-ascends-at : IsAscending (λ e. e.at) (serialize short)
unfolding serialize
short-ascends-at = ((omega arith, (omega arith, tt)), ((omega arith, tt), (tt, tt)))

short-ascends-seq : IsAscending (λ e. e.seq) (serialize short)
unfolding serialize
short-ascends-seq = ((omega arith, (omega arith, tt)), ((omega arith, tt), (tt, tt)))

partition_point_at-serialize_example :
    partition_point_at short 5 ≡ partition_point (λ e. leb e.at 5) (serialize short)
partition_point_at-serialize_example =
    partition_point_at-serialize short 5 short-IsChunked short-ascends-at

partition_point_seq-serialize_example :
    partition_point_seq short 4 ≡ partition_point (λ e. leb e.seq 4) (serialize short)
partition_point_seq-serialize_example =
    partition_point_seq-serialize short 4 short-IsChunked short-ascends-seq
