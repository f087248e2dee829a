-- ===== src/State/PostingIndex.antt =====
-- `PostingIndex` of talea-store-log/src/state.rs: the posting history of an account in chunks.
-- `slice::partition_point` of the standard library is the length of the longest prefix that passes
-- the test, which is what it documents for a slice that is partitioned by the test.
pub mod Laws
pub mod Search
pub mod RoundTrip
use talea.Prelude.{ℕ, suc, ◌+◌, ◌-◌, ◌*◌, ◌/◌, ◌%◌, min, Bool, true, false, ◌&&◌}
use talea.Prelude.{Option, none, some, List, [], ◌∷◌, ◌++◌, ltb, leb, ◌==◌, if◌then◌else◌}
use talea.Prelude.{length, get_elem?, drop}
use talea.Result.{bind_option}
use talea.Types.{Seq, DateTime}
use talea.State.Data.{PostingEntry, PostingIndex}

-- `CHUNK`
abbrev pub chunk_len : ℕ
chunk_len = 4096

unfoldable pub default : PostingIndex
default = record { sealed = []; tail = [] }

-- `push`: a tail that is full is sealed.
unfoldable pub push : PostingIndex → PostingEntry → PostingIndex
push x e =
    let tail' = x.tail ++ (e ∷ []) in
    if length tail' == chunk_len
    then record { sealed = x.sealed ++ (tail' ∷ []); tail = [] }
    else record x { tail = tail' }

unfoldable pub len : PostingIndex → ℕ
len x = length x.sealed * chunk_len + length x.tail

abbrev is_nil {ℓ} : {A : Type ℓ} → List A → Bool
is_nil [] = true
is_nil (_ ∷ _) = false

unfoldable pub is_empty : PostingIndex → Bool
is_empty x = is_nil x.sealed && is_nil x.tail

abbrev pub partition_point {ℓ} : {A : Type ℓ} → (A → Bool) → List A → ℕ
partition_point p [] = 0
partition_point p (x ∷ xs) = if p x then suc (partition_point p xs) else 0

abbrev pub last? {ℓ} : {A : Type ℓ} → List A → Option A
last? [] = none
last? (x ∷ []) = some x
last? (x ∷ y ∷ r) = last? (y ∷ r)

-- The last entry of a chunk passes the test.
abbrev pub last_passes : (PostingEntry → Bool) → List PostingEntry → Bool
last_passes p chunk = elim (last? chunk) [ none ↦ false | some e ↦ p e ]

-- The search that `partition_point_at` and `partition_point_seq` share: first the chunk, then the
-- place in it.
unfoldable pub partition_index : (PostingEntry → Bool) → PostingIndex → ℕ
partition_index p x =
    let chunk_idx = partition_point (last_passes p) x.sealed in
    elim (get_elem? x.sealed chunk_idx) [
      | some chunk ↦ chunk_idx * chunk_len + partition_point p chunk
      | none ↦ length x.sealed * chunk_len + partition_point p x.tail
    ]

unfoldable pub partition_point_at : PostingIndex → DateTime → ℕ
unfolding partition_index
partition_point_at x t = partition_index (λ e. leb e.at t) x

unfoldable pub partition_point_seq : PostingIndex → Seq → ℕ
unfolding partition_index
partition_point_seq x after = partition_index (λ e. leb e.seq after) x

-- `get`
unfoldable pub get : PostingIndex → ℕ → Option PostingEntry
get x idx =
    if ltb idx (length x.sealed * chunk_len)
    then bind_option (get_elem? x.sealed (idx / chunk_len)) (λ c. get_elem? c (idx % chunk_len))
    else get_elem? x.tail (idx - length x.sealed * chunk_len)

abbrev pub concat {ℓ} : {A : Type ℓ} → List (List A) → List A
concat [] = []
concat (c ∷ cs) = c ++ concat cs

-- The first of the chunks is entered at `local_start`, the others at their beginning.
abbrev pub chunks_from : ℕ → List (List PostingEntry) → List PostingEntry
chunks_from local_start [] = []
chunks_from local_start (c ∷ cs) = drop local_start c ++ concat cs

-- `iter_from`
unfoldable pub iter_from : PostingIndex → ℕ → List PostingEntry
iter_from x idx =
    let sealed_total = length x.sealed * chunk_len in
    (if ltb idx sealed_total
      then chunks_from (idx % chunk_len) (drop (idx / chunk_len) x.sealed)
      else [])
    ++ drop (min (idx - sealed_total) (length x.tail)) x.tail

-- `Serialize`: the entries in order.
unfoldable pub serialize : PostingIndex → List PostingEntry
serialize x = concat x.sealed ++ x.tail

push_all : List PostingEntry → PostingIndex → PostingIndex
push_all [] x = x
push_all (e ∷ es) x = push_all es (push x e)

-- `Deserialize`: the entries are pushed one by one.
unfoldable pub deserialize : List PostingEntry → PostingIndex
unfolding push_all
deserialize es = push_all es default
