-- ===== src/State/PostingIndex/Search.antt =====
-- The binary searches of the index, against the search in the plain list, and its round trip.
use talea.Prelude.{ℕ, ◌+◌, ◌≤◌, ◌≡◌, sym, subst, Bool, true, false}
use talea.Prelude.{List, [], ◌∷◌, ◌++◌, append_assoc, All, arith}
use talea.Prelude.{length, Bool-cases, inl, inr, leb}
use talea.State.Data.{PostingEntry, PostingIndex}
use talea.State.PostingIndex.{concat, partition_point}
use talea.State.PostingIndex.{last_passes, partition_index, partition_point_at}
use talea.State.PostingIndex.{partition_point_seq, serialize}
use talea.State.PostingIndex.Laws.{IsFull, IsChunked}
use talea.Types.{DateTime, Seq}

-- Where the test fails it fails for all that follow.
abbrev IsPartitioned : (PostingEntry → Bool) → List PostingEntry → Type 0
IsPartitioned p [] = Unit
IsPartitioned p (x ∷ xs) = (p x ≡ false → All (λ y. p y ≡ false) xs) × IsPartitioned p xs

-- The numbers `f` of the entries do not decrease.
abbrev pub IsAscending : (PostingEntry → ℕ) → List PostingEntry → Type 0
IsAscending f [] = Unit
IsAscending f (x ∷ xs) = All (λ y. f x ≤ f y) xs × IsAscending f xs

All-later :
    (f : PostingEntry → ℕ) (t k : ℕ) (xs : List PostingEntry)
    → leb k t ≡ false
    → All (λ y. k ≤ f y) xs
    → All (λ y. leb (f y) t ≡ false) xs
All-later f t k [] h a = tt
All-later f t k (x ∷ xs) h a = (ground (arith, a.0), All-later f t k xs h a.1)

IsPartitioned-IsAscending :
    (f : PostingEntry → ℕ) (t : ℕ) (xs : List PostingEntry)
    → IsAscending f xs
    → IsPartitioned (λ e. leb (f e) t) xs
IsPartitioned-IsAscending f t [] h = tt
IsPartitioned-IsAscending f t (x ∷ xs) h =
    ((λ e. All-later f t (f x) xs e h.0), IsPartitioned-IsAscending f t xs h.1)

module _ (p : PostingEntry → Bool) where
  IsPartitioned-right :
      (xs ys : List PostingEntry) → IsPartitioned p (xs ++ ys) → IsPartitioned p ys
  IsPartitioned-right [] ys h = h
  IsPartitioned-right (x ∷ xs) ys h = IsPartitioned-right xs ys h.1

  last_false :
      (x : PostingEntry) (xs ys : List PostingEntry)
      → All (λ y. p y ≡ false) (x ∷ (xs ++ ys))
      → last_passes p (x ∷ xs) ≡ false
  last_false x [] ys h = h.0
  last_false x (y ∷ xs) ys h = last_false y xs ys h.1

  -- If the last of the entries passes, all of them do.
  point_past :
      (x : PostingEntry) (xs ys : List PostingEntry)
      → IsPartitioned p (x ∷ (xs ++ ys))
      → last_passes p (x ∷ xs) ≡ true
      → partition_point p (x ∷ (xs ++ ys)) ≡ length (x ∷ xs) + partition_point p ys
  point_past x [] ys h e = ground arith
  point_past x (y ∷ xs) ys h e = elim (Bool-cases (p x)) [
    | inl t ↦ rw t (ground (arith, point_past y xs ys h.1 e))
    | inr f ↦ cc (last_false y xs ys (h.0 f), e)
  ]

  -- If it fails, the point is among them.
  point_inside :
      (x : PostingEntry) (xs ys : List PostingEntry)
      → last_passes p (x ∷ xs) ≡ false
      → partition_point p (x ∷ (xs ++ ys)) ≡ partition_point p (x ∷ xs)
  point_inside x [] ys e = ground arith
  point_inside x (y ∷ xs) ys e = ground (arith, point_inside y xs ys e)

  partition_concat :
      (cs : List (List PostingEntry)) (t : List PostingEntry)
      → All IsFull cs
      → IsPartitioned p (concat cs ++ t)
      → partition_index p (record { sealed = cs; tail = t }) ≡ partition_point p (concat cs ++ t)
  unfolding partition_index
  partition_concat [] t h k = ground arith
  partition_concat ([] ∷ cs) t h k = absurd (omega arith)
  partition_concat ((x ∷ c) ∷ cs) t h k =
      let assoc : concat ((x ∷ c) ∷ cs) ++ t ≡ x ∷ (c ++ (concat cs ++ t)) =
        append_assoc (x ∷ c) (concat cs) t in
      let ih =
        partition_concat cs t h.1
          (IsPartitioned-right (x ∷ c) (concat cs ++ t) (subst (IsPartitioned p) assoc k)) in
      subst
        (λ l. partition_index p (record { sealed = (x ∷ c) ∷ cs; tail = t }) ≡ partition_point p l)
        (sym assoc)
        (elim (Bool-cases (last_passes p (x ∷ c))) [
          | inl passes ↦ ground (
            arith,
            passes,
            ih,
            point_past x c (concat cs ++ t) (subst (IsPartitioned p) assoc k) passes,
            h.0,
          )
          | inr fails ↦ ground (arith, fails, point_inside x c (concat cs ++ t) fails)
        ])

-- On a well-formed index (each sealed chunk is full, the open one is not), whose history is in the order of
-- commit time, the search by time finds the number of entries that
-- were committed at `t` or before, as the search in the plain list does.
pub partition_point_at-serialize :
    (x : PostingIndex) (t : DateTime)
    → IsChunked x
    → IsAscending (λ e. e.at) (serialize x)
    → partition_point_at x t ≡ partition_point (λ e. leb e.at t) (serialize x)
unfolding partition_point_at serialize
partition_point_at-serialize x t h k =
    partition_concat (λ e. leb e.at t) x.sealed x.tail h.full
      (IsPartitioned-IsAscending (λ e. e.at) t (concat x.sealed ++ x.tail) k)

-- On a well-formed index (each sealed chunk is full, the open one is not), whose history is in the order of
-- sequence numbers, the search by number finds the number of entries
-- up to `after`, as the search in the plain list does.
pub partition_point_seq-serialize :
    (x : PostingIndex) (after : Seq)
    → IsChunked x
    → IsAscending (λ e. e.seq) (serialize x)
    → partition_point_seq x after ≡ partition_point (λ e. leb e.seq after) (serialize x)
unfolding partition_point_seq serialize
partition_point_seq-serialize x after h k =
    partition_concat (λ e. leb e.seq after) x.sealed x.tail h.full
      (IsPartitioned-IsAscending (λ e. e.seq) after (concat x.sealed ++ x.tail) k)
