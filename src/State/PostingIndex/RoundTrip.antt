-- ===== src/State/PostingIndex/RoundTrip.antt =====
-- Writing an index to a snapshot and reading it back.
use talea.Prelude.{◌+◌, ◌<◌, ◌≡◌, refl, ap, ◌∙◌, List, [], ◌∷◌, ◌++◌, append-nil, append_assoc}
use talea.Prelude.{All, arith, length, length-append, Bool-cases, inl, inr, ◌==◌, true, false}
use talea.State.Data.{PostingEntry, PostingIndex}
use talea.State.PostingIndex.{chunk_len, push, push_all, default, concat, serialize, deserialize}
use talea.State.PostingIndex.Laws.{IsFull, IsChunked}

abbrev index : List (List PostingEntry) → List PostingEntry → PostingIndex
index s t = record { sealed = s; tail = t }

push_all-append :
    (xs ys : List PostingEntry) (x : PostingIndex)
    → push_all (xs ++ ys) x ≡ push_all ys (push_all xs x)
unfolding push_all
push_all-append [] ys x = refl
push_all-append (e ∷ xs) ys x = push_all-append xs ys (push x e)

-- Pushes that do not fill the tail only grow it.
push_all-tail :
    (es : List PostingEntry) (s : List (List PostingEntry)) (t : List PostingEntry)
    → length t + length es < chunk_len
    → push_all es (index s t) ≡ index s (t ++ es)
unfolding push_all push
push_all-tail [] s t h = rw append-nil
push_all-tail (e ∷ es) s t h =
    let grown = length-append t (e ∷ []) in
    elim (Bool-cases (length (t ++ (e ∷ [])) == chunk_len)) [
      | inl eq ↦ absurd (ground arith)
      | inr ne ↦ rw ne (
          push_all-tail es s (t ++ (e ∷ [])) (omega arith)
          ∙ ap (index s) (append_assoc t (e ∷ []) es))
    ]

-- Pushes that fill the tail seal it.
push_all-full :
    (es : List PostingEntry) (s : List (List PostingEntry)) (t : List PostingEntry)
    → length t < chunk_len
    → length t + length es ≡ chunk_len
    → push_all es (index s t) ≡ index (s ++ ((t ++ es) ∷ [])) []
unfolding push_all push
push_all-full [] s t h k = absurd (omega arith)
push_all-full (e ∷ []) s t h k =
    let seals : (length (t ++ (e ∷ [])) == chunk_len) ≡ true =
      ground (arith, length-append t (e ∷ [])) in
    rw seals
push_all-full (e ∷ d ∷ es) s t h k =
    let grown = length-append t (e ∷ []) in
    let more : (length (t ++ (e ∷ [])) == chunk_len) ≡ false = ground arith in
    rw more (
      push_all-full (d ∷ es) s (t ++ (e ∷ [])) (omega arith) (omega arith)
      ∙ ap (λ c. index (s ++ (c ∷ [])) []) (append_assoc t (e ∷ []) (d ∷ es)))

push_all-concat :
    (cs s : List (List PostingEntry)) (t : List PostingEntry)
    → All IsFull cs
    → length t < chunk_len
    → push_all (concat cs ++ t) (index s []) ≡ index (s ++ cs) t
push_all-concat [] s t h k = rw append-nil (push_all-tail t s [] (omega arith))
push_all-concat (c ∷ cs) s t h k =
    ap (λ l. push_all l (index s [])) (append_assoc c (concat cs) t)
    ∙ push_all-append c (concat cs ++ t) (index s [])
    ∙ ap (push_all (concat cs ++ t)) (push_all-full c s [] (omega arith) (omega arith))
    ∙ push_all-concat cs (s ++ (c ∷ [])) t h.1 k
    ∙ ap (λ l. index l t) (append_assoc s (c ∷ []) cs)

-- A well-formed index that is written and read back is the same index, chunk by chunk.
pub deserialize-serialize : (x : PostingIndex) → IsChunked x → deserialize (serialize x) ≡ x
unfolding deserialize serialize default
deserialize-serialize x h = push_all-concat x.sealed [] x.tail h.full h.open_tail
