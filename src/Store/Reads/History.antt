-- ===== src/Store/Reads/History.antt =====
-- A page of the history of an account: what it has, and what it leaves to the next.
use talea.Prelude.{ℕ, zero, suc, ◌+◌, ◌≤◌, ◌<◌, ◌≡◌, refl, sym, ◌∙◌, ap, subst, ◌⊎◌, inl, inr}
use talea.Prelude.{true, false, Option, List, [], ◌∷◌, ◌++◌, All, All-map, leb, ◌==◌}
use talea.Prelude.{if◌then◌else◌, Bool-cases, drop, arith, ==_iff}
use talea.Result.{unwrap_or}
use talea.Types.{Seq}
use talea.State.{AccountState, PostingEntry}
use talea.State.PostingIndex.{partition_point, serialize, partition_point_seq, iter_from}
use talea.State.PostingIndex.Laws.{IsChunked, iter_from-serialize}
use talea.State.PostingIndex.Search.{IsAscending, partition_point_seq-serialize}
use talea.Store.Reads.{take_seqs, page}

-- How many entries have another number than the entry before them.
abbrev pub changes : Seq → List PostingEntry → ℕ
changes last [] = 0
changes last (e ∷ es) = (if e.seq == last then 0 else 1) + changes e.seq es

-- The number of the last entry.
abbrev pub last_seq : Seq → List PostingEntry → Seq
last_seq last [] = last
last_seq last (e ∷ es) = last_seq e.seq es

-- What is left begins with another number.
abbrev NotSplit : Seq → List PostingEntry → Type 0
NotSplit last [] = Unit
NotSplit last (e ∷ es) = (e.seq == last) ≡ false

changes-same :
    (last : Seq) (e : PostingEntry) (es : List PostingEntry)
    → (e.seq == last) ≡ true
    → changes last (e ∷ es) ≡ changes last es
changes-same last e es same =
    let key : e.seq ≡ last = (==_iff e.seq last).0 same in
    let same_rest = ap (λ s. changes s es) key in ground (arith, same, same_rest)

changes-other :
    (last : Seq) (e : PostingEntry) (es : List PostingEntry)
    → (e.seq == last) ≡ false
    → changes last (e ∷ es) ≡ 1 + changes e.seq es
changes-other last e es other = rw other refl

shifted :
    {m n limit : ℕ} (rest : List PostingEntry)
    → m ≡ n
    → (rest ≡ []) ⊎ (m ≡ limit)
    → (rest ≡ []) ⊎ (n ≡ limit)
shifted rest e (inl end) = inl end
shifted rest e (inr full) = inr (sym e ∙ full)

record IsPage (limit distinct : ℕ) (last : Seq) (es taken : List PostingEntry) : Type 0 where
  rest : List PostingEntry
  whole : taken ++ rest ≡ es
  within : distinct + changes last taken ≤ limit
  filled : (rest ≡ []) ⊎ (distinct + changes last taken ≡ limit)
  apart : NotSplit (last_seq last taken) rest

take_seqs-IsPage :
    (limit distinct : ℕ) (last : Seq) (es : List PostingEntry)
    → distinct ≤ limit
    → IsPage limit distinct last es (take_seqs limit distinct last es)
unfolding take_seqs
take_seqs-IsPage limit distinct last [] h = record {
  rest = [];
  whole = refl;
  within = omega arith;
  filled = inl refl;
  apart = tt;
}
take_seqs-IsPage limit distinct last (e ∷ es) h = elim (Bool-cases (e.seq == last)) [
  | inl same ↦
      let key : e.seq ≡ last = (==_iff e.seq last).0 same in
      let q = take_seqs-IsPage limit distinct last es h in
      let c = changes-same last e (take_seqs limit distinct last es) same in
      rw (same, take_seqs)
        (record {
          rest = q.rest;
          whole = ap (λ xs. e ∷ xs) q.whole;
          within = omega (arith, c, q.within);
          filled = shifted q.rest (omega (arith, c)) q.filled;
          apart =
              subst (λ s. NotSplit (last_seq s (take_seqs limit distinct last es)) q.rest) (sym key)
                q.apart;
        })
  | inr other ↦ elim (Bool-cases (leb limit distinct)) [
    | inl full ↦
        rw (other, full, take_seqs)
          (record {
            rest = e ∷ es;
            whole = refl;
            within = omega arith;
            filled = inr (ground (arith, full, h));
            apart = other;
          })
    | inr open_ ↦
        let q = take_seqs-IsPage limit (distinct + 1) e.seq es (ground (arith, open_)) in
        let c = changes-other last e (take_seqs limit (distinct + 1) e.seq es) other in
        rw (other, open_, take_seqs)
          (record {
            rest = q.rest;
            whole = ap (λ xs. e ∷ xs) q.whole;
            within = omega (arith, c, q.within);
            filled = shifted q.rest (omega (arith, c)) q.filled;
            apart = q.apart;
          })
  ]
]

-- In the order of the numbers, what begins with another number than the last before it has no number of
-- those before it.
abbrev pub Apart : List PostingEntry → List PostingEntry → Type 0
Apart taken rest = All (λ e. All (λ r. e.seq < r.seq) rest) taken

after_last :
    (e : PostingEntry) (rest : List PostingEntry)
    → All (λ r. e.seq ≤ r.seq) rest
    → IsAscending (λ r. r.seq) rest
    → NotSplit e.seq rest
    → All (λ r. e.seq < r.seq) rest
after_last e [] h a n = tt
after_last e (r ∷ rest) h a n =
    let first : e.seq < r.seq = ground (arith, h.0, n) in
    (
      first,
      All-map _ _ (λ (q : PostingEntry) (l : r.seq ≤ q.seq). omega (arith, first, l)) rest a.0,
    )

module _ (rest : List PostingEntry) where
  NotSplit-Apart :
      (last : Seq) (taken : List PostingEntry)
      → IsAscending (λ r. r.seq) (taken ++ rest)
      → NotSplit (last_seq last taken) rest
      → Apart taken rest
  NotSplit-Apart last [] a n = tt
  NotSplit-Apart last (e ∷ []) a n = (after_last e rest a.0 a.1 n, tt)
  NotSplit-Apart last (e ∷ d ∷ taken) a n =
      let ih = NotSplit-Apart last (d ∷ taken) a.1 n in
      (
        All-map _ _ (λ (r : PostingEntry) (l : d.seq < r.seq). omega (arith, a.0.0, l)) rest ih.0,
        ih,
      )

IsAscending-drop :
    (n : ℕ) (xs : List PostingEntry)
    → IsAscending (λ r. r.seq) xs
    → IsAscending (λ r. r.seq) (drop n xs)
IsAscending-drop zero xs a = a
IsAscending-drop (suc n) [] a = tt
IsAscending-drop (suc n) (x ∷ xs) a = IsAscending-drop n xs a.1

-- The entries of a history with a number above the one given, or all of them.
abbrev pub later_than : AccountState → Option Seq → List PostingEntry
later_than acct after =
    drop (partition_point (λ e. leb e.seq (unwrap_or after 0)) (serialize acct.postings))
      (serialize acct.postings)

-- Let the index of an account be well formed, and its history in the order of the sequence numbers. Then a
-- page of it, with a limit, is the beginning of the entries that come after the entries up to the number
-- given; it has at most as many sequence numbers as the limit says, and as many if it leaves anything; and
-- every number of what it leaves is above every number of the page, so no transaction is split.
pub page-IsPrefix :
    (acct : AccountState) (after : Option Seq) (limit : ℕ)
    → IsChunked acct.postings
    → IsAscending (λ e. e.seq) (serialize acct.postings)
    → (rest : List PostingEntry) × (page acct after limit ++ rest ≡ later_than acct after)
      × (changes 0 (page acct after limit) ≤ limit)
      × ((rest ≡ []) ⊎ (changes 0 (page acct after limit) ≡ limit))
      × Apart (page acct after limit) rest
unfolding page
page-IsPrefix acct after limit chunked ascending =
    let seen = unwrap_or after 0 in
    let point = partition_point_seq acct.postings seen in
    let from =
      iter_from-serialize acct.postings point chunked
      ∙ ap (λ n. drop n (serialize acct.postings))
          (partition_point_seq-serialize acct.postings seen chunked ascending) in
    let p = take_seqs-IsPage limit 0 0 (iter_from acct.postings point) (omega arith) in
    let sorted = subst (IsAscending (λ e. e.seq)) (sym (p.whole ∙ from)) (
      IsAscending-drop (partition_point (λ e. leb e.seq seen) (serialize acct.postings))
        (serialize acct.postings) ascending) in
    (
      p.rest,
      p.whole ∙ from,
      omega (arith, p.within),
      shifted p.rest (omega arith) p.filled,
      NotSplit-Apart p.rest 0 _ sorted p.apart,
    )
