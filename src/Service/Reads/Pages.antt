-- ===== src/Service/Reads/Pages.antt =====
-- Following the cursors of the service: each page, with what its cursor leads to, is all that was asked.
use talea.Prelude.{ℕ, ◌≤◌, ◌<◌, ◌≡◌, refl, sym, ◌∙◌, ap, subst, inl, inr}
use talea.Prelude.{true, false, Option, none, some, List, [], ◌∷◌, ◌++◌, append_assoc}
use talea.Prelude.{All, leb, ltb, length, map, drop, take, take-append-drop}
use talea.Prelude.{Bool-cases, arith}
use talea.Prelude.Lists.{length-map}
use talea.Result.{some_inj, unwrap_or}
use talea.Types.{Seq, AccountId}
use talea.State.{AccountState, PostingEntry}
use talea.State.PostingIndex.{partition_point, serialize, last?}
use talea.State.PostingIndex.Laws.{IsChunked}
use talea.State.PostingIndex.Search.{IsAscending}
use talea.Store.Reads.{page, posting_record}
use talea.Store.Reads.History.{page-IsPrefix, later_than, changes, Apart}
use talea.Service.Reads.{next_cursor, page_limit, last_seq}

-- There are no more changes of number than entries.
changes-le-length : (last : Seq) (es : List PostingEntry) → changes last es ≤ length es
changes-le-length last [] = omega arith
changes-le-length last (e ∷ es) = ground (arith, changes-le-length e.seq es)

-- The entries up to a number are dropped, if those that follow have a higher one.
drop-partition_point :
    (s : Seq) (xs rest : List PostingEntry)
    → All (λ e. e.seq ≤ s) xs
    → All (λ e. s < e.seq) rest
    → drop (partition_point (λ e. leb e.seq s) (xs ++ rest)) (xs ++ rest) ≡ rest
drop-partition_point s [] [] h k = refl
drop-partition_point s [] (r ∷ rest) h k =
    let first : leb r.seq s ≡ false = ground (arith, k.0) in rw first refl
drop-partition_point s (x ∷ xs) rest h k =
    let first : leb x.seq s ≡ true = ground (arith, h.0) in
    rw first (drop-partition_point s xs rest h.1 k)

-- In the order of the numbers, none is above the last.
All-le-last :
    (xs : List PostingEntry) {e : PostingEntry}
    → IsAscending (λ r. r.seq) xs
    → last? xs ≡ some e
    → All (λ r. r.seq ≤ e.seq) xs
All-le-last [] a l = tt
All-le-last (x ∷ []) a l =
    (subst (λ (r : PostingEntry). x.seq ≤ r.seq) (some_inj l) (omega arith), tt)
All-le-last (x ∷ y ∷ xs) a l =
    let ih = All-le-last (y ∷ xs) a.1 l in ((omega (arith, a.0.0, ih.0)), ih)

All-left : (P : PostingEntry → Type 0) (xs ys : List PostingEntry) → All P (xs ++ ys) → All P xs
All-left P [] ys h = tt
All-left P (x ∷ xs) ys h = (h.0, All-left P xs ys h.1)

IsAscending-left :
    (xs ys : List PostingEntry) → IsAscending (λ r. r.seq) (xs ++ ys) → IsAscending (λ r. r.seq) xs
IsAscending-left [] ys a = tt
IsAscending-left (x ∷ xs) ys a =
    (All-left (λ r. x.seq ≤ r.seq) xs ys a.0, IsAscending-left xs ys a.1)

last?-append :
    (xs : List PostingEntry) (y : PostingEntry) (ys : List PostingEntry)
    → last? (xs ++ (y ∷ ys)) ≡ last? (y ∷ ys)
last?-append [] y ys = refl
last?-append (x ∷ []) y ys = refl
last?-append (x ∷ z ∷ xs) y ys = last?-append (z ∷ xs) y ys

page_limit_pos : (limit : ℕ) → 0 < page_limit limit
unfolding page_limit
page_limit_pos limit = omega arith

-- What a cursor leads to; none leads to nothing.
abbrev pub following : AccountState → Option Seq → List PostingEntry
following acct none = []
following acct (some s) = later_than acct (some s)

last_seq-map :
    (account : AccountId) (acct : AccountState) (xs : List PostingEntry) {e : PostingEntry}
    → last? xs ≡ some e
    → last_seq (map (posting_record account acct) xs) ≡ some e.seq
unfolding posting_record
last_seq-map account acct [] l = absurd (cc l)
last_seq-map account acct (x ∷ []) l = ap (λ (r : PostingEntry). some r.seq) (some_inj l)
last_seq-map account acct (x ∷ y ∷ xs) l = last_seq-map account acct (y ∷ xs) l

last?-some : (xs : List PostingEntry) → 0 < length xs → (e : PostingEntry) × (last? xs ≡ some e)
last?-some [] h = absurd (omega arith)
last?-some (x ∷ []) h = (x, refl)
last?-some (x ∷ y ∷ xs) h = last?-some (y ∷ xs) (omega arith)

last?-All :
    (P : PostingEntry → Type 0) (xs : List PostingEntry) {e : PostingEntry}
    → All P xs
    → last? xs ≡ some e
    → P e
last?-All P [] h l = absurd (cc l)
last?-All P (x ∷ []) h l = subst (P) (some_inj l) h.0
last?-All P (x ∷ y ∷ xs) h l = last?-All P (y ∷ xs) h.1 l

last?-append_left :
    (xs ys : List PostingEntry) {e : PostingEntry} → last? ys ≡ some e → last? (xs ++ ys) ≡ some e
last?-append_left xs [] l = absurd (cc l)
last?-append_left xs (y ∷ ys) l = last?-append xs y ys ∙ l

-- What is left after a page is what its last number leads to.
rest-eq-later_than :
    (acct : AccountState) (before taken rest : List PostingEntry) {e : PostingEntry}
    → IsAscending (λ r. r.seq) (serialize acct.postings)
    → before ++ (taken ++ rest) ≡ serialize acct.postings
    → last? taken ≡ some e
    → Apart taken rest
    → later_than acct (some e.seq) ≡ rest
rest-eq-later_than acct before taken rest {e} ascending whole last apart =
    let assoc = append_assoc before taken rest ∙ whole in
    let left =
      IsAscending-left (before ++ taken) rest
        (subst (IsAscending (λ r. r.seq)) (sym assoc) ascending) in
    let low = All-le-last (before ++ taken) left (last?-append_left before taken last) in
    let high = last?-All (λ d. All (λ r. d.seq < r.seq) rest) taken apart last in
    subst (λ xs. drop (partition_point (λ r. leb r.seq e.seq) xs) xs ≡ rest) assoc
      (drop-partition_point e.seq (before ++ taken) rest low high)

-- Let the index of an account be well formed, and its history in the order of the sequence numbers. Then
-- what the service answers for a page of it, at any requested limit, loses and repeats nothing: the page,
-- and after it the entries above the number of its cursor, or none if the cursor is closed, are the
-- entries that the page was asked for, in their order.
pub page-following :
    (account : AccountId) (acct : AccountState) (after : Option Seq) (limit : ℕ)
    → IsChunked acct.postings
    → IsAscending (λ e. e.seq) (serialize acct.postings)
    → page acct after (page_limit limit)
        ++ following acct (
            next_cursor
              (page_limit limit)
              (map (posting_record account acct) (page acct after (page_limit limit))))
      ≡ later_than acct after
unfolding next_cursor
page-following account acct after limit chunked ascending =
    let l = page_limit limit in
    let taken = page acct after l in
    let (rest, whole, within, filled, apart) = page-IsPrefix acct after l chunked ascending in
    let few = changes-le-length 0 taken in
    let records = map (posting_record account acct) taken in
    let len : length records ≡ length taken = length-map taken (posting_record account acct) in
    elim (Bool-cases (ltb (length taken) l)) [
      | inl short ↦ elim filled [
        | inl end ↦ rw (next_cursor, len, short) (ap (λ r. taken ++ r) (sym end) ∙ whole)
        | inr full ↦ absurd (ground (arith, short, few, full))
      ]
      | inr long ↦
          let (e, last) = last?-some taken (ground (arith, long, page_limit_pos limit)) in
          let cursor = last_seq-map account acct taken last in
          let n = partition_point (λ r. leb r.seq (unwrap_or after 0)) (serialize acct.postings) in
          let all =
            ap (λ r. take n (serialize acct.postings) ++ r) whole
            ∙ take-append-drop n (serialize acct.postings) in
          let next =
            rest-eq-later_than acct (take n (serialize acct.postings)) taken rest ascending all last
              apart in
          rw (next_cursor, len, long, cursor) (ap (λ r. taken ++ r) next ∙ whole)
    ]
